-- ===== src/Controller/Entry/Bounds.antt =====
-- How soon the two machines are reconciled again.
use cluster_api_provider_vul.Base.{◌≡◌, refl, String, Option, Outcome, ok, err, panic, out_of_fuel}
use cluster_api_provider_vul.Base.Returns.{Returns}
use cluster_api_provider_vul.Api.Machine.{VultrMachine}
use cluster_api_provider_vul.Api.BareMetal.{VultrBareMetalMachine}
use cluster_api_provider_vul.Kube.{Platform, Env, ReconcileResult}
use cluster_api_provider_vul.Services.CloudConfig.Prepend.{Yaml}
use cluster_api_provider_vul.Controller.Entry.{reconcile, vultr_machine, vultr_bare_metal_machine}
use cluster_api_provider_vul.Controller.Entry.Requeue.{Soon, reconcile-Returns}
use cluster_api_provider_vul.Controller.Machine.Requeue as MachineRequeue
use cluster_api_provider_vul.Controller.BareMetal.Requeue as BareMetalRequeue

-- An outcome that asks for no requeue but one in ten seconds to half a minute.
pub Paced : Outcome ReconcileResult → Type 0
Paced (ok r) = Soon r
Paced (err e) = Unit {0}
Paced panic = Unit {0}
Paced out_of_fuel = Unit {0}

Returns-Paced :
    {S : Type 0} (m : S → Outcome ReconcileResult × S)
    → Returns Soon m
    → (s : S) (o : Outcome ReconcileResult) → (m s).0 ≡ o
    → Paced o
unfolding Paced
Returns-Paced m h s (ok r) e = h.holds s r e
Returns-Paced m h s (err x) e = tt
Returns-Paced m h s panic e = tt
Returns-Paced m h s out_of_fuel e = tt

module _ {W V : Type 0} (p : Platform W) (yaml : Yaml V) where
  -- Whatever path a Reconcile of a VultrMachine or of a VultrBareMetalMachine takes, if it ends
  -- without an error it asks for no requeue, or for one after at least ten seconds and at most
  -- thirty.
  pub reconcile-Paced :
      (namespace name : String) (s : Env W (Option VultrMachine))
      (t : Env W (Option VultrBareMetalMachine))
      → Paced (reconcile p (vultr_machine p) namespace name s).0
        × Paced (reconcile p (vultr_bare_metal_machine p yaml) namespace name t).0
  reconcile-Paced namespace name s t = (
    Returns-Paced _
        (reconcile-Returns p (vultr_machine p)
          (λ sc ms. MachineRequeue.reconcile_normal-Returns p sc ms)
          (λ sc ms. MachineRequeue.reconcile_delete-Returns p sc ms) namespace name)
        s _ refl,
    Returns-Paced _
        (reconcile-Returns p (vultr_bare_metal_machine p yaml)
          (λ sc ms. BareMetalRequeue.reconcile_normal-Returns p yaml sc ms)
          (λ sc ms. BareMetalRequeue.reconcile_delete-Returns p yaml sc ms) namespace name)
        t _ refl,
  )
