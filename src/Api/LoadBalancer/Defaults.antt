-- ===== src/Api/LoadBalancer/Defaults.antt =====
-- What `ApplyDefaults` fills in, and what it leaves as it was.
use cluster_api_provider_vul.Base.{
  ℤ, pos, ◌≡◌, refl, ◌≢◌, String, some, ◌==◌, string_eq, arith, eq_iff, false, if◌then◌else◌,
}
use cluster_api_provider_vul.Base.Int.{is_zero}
use cluster_api_provider_vul.Api.LoadBalancer.{
  HealthCheck, GenericInfo, VultrLoadBalancer, default_lb_algorithm, or_new, or_default,
  zero_health_check, zero_generic_info, health_check_defaults, generic_info_defaults,
  apply_defaults,
}

-- Every setting that the create request reads is there, and none of them is zero.
pub record IsComplete (lb : VultrLoadBalancer) : Type 0 where
  pub health : HealthCheck
  pub info : GenericInfo
  pub has_health : lb.health_check ≡ some health
  pub has_info : lb.generic_info ≡ some info
  pub port_set : is_zero health.port ≡ false
  pub interval_set : is_zero health.check_interval ≡ false
  pub timeout_set : is_zero health.response_timeout ≡ false
  pub unhealthy_set : is_zero health.unhealthy_threshold ≡ false
  pub healthy_set : is_zero health.healthy_threshold ≡ false
  pub algorithm_set : info.balancing_algorithm ≢ ""

or_default_set : (a n : ℤ) → is_zero n ≡ false → is_zero (or_default a n) ≡ false
or_default_set a n h = ground arith

algorithm_nonempty : (s : String) → (if s == "" then default_lb_algorithm else s) ≢ ""
algorithm_nonempty s = ground (arith, eq_iff s "", eq_iff default_lb_algorithm "")

-- After `ApplyDefaults` the health check and the generic settings exist, and neither the port, an
-- interval, a timeout, a threshold nor the balancing algorithm is a zero value.
pub apply_defaults-IsComplete : (lb : VultrLoadBalancer) → IsComplete (apply_defaults lb)
unfolding apply_defaults
apply_defaults-IsComplete lb =
    let h : HealthCheck = or_new zero_health_check lb.health_check in
    let g : GenericInfo = or_new zero_generic_info lb.generic_info in
    record {
      health = health_check_defaults h;
      info = generic_info_defaults g;
      has_health = refl;
      has_info = refl;
      port_set = or_default_set h.port _ refl;
      interval_set = or_default_set h.check_interval _ refl;
      timeout_set = or_default_set h.response_timeout _ refl;
      unhealthy_set = or_default_set h.unhealthy_threshold _ refl;
      healthy_set = or_default_set h.healthy_threshold _ refl;
      algorithm_set = algorithm_nonempty g.balancing_algorithm;
    }

or_default_of_set : (a n : ℤ) → is_zero a ≡ false → or_default a n ≡ a
or_default_of_set a n h = rw h

-- Settings that are complete already are left as they are.
pub apply_defaults_of_IsComplete : (lb : VultrLoadBalancer) → IsComplete lb → apply_defaults lb ≡ lb
unfolding apply_defaults
apply_defaults_of_IsComplete lb c = ground (
  arith,
  or_default_of_set c.health.port (pos 6443) c.port_set,
  eq_iff c.info.balancing_algorithm "",
)

-- Applying the defaults twice is applying them once, and every field but the health check and the
-- generic settings stays as it was.
pub apply_defaults_idempotent :
    (lb : VultrLoadBalancer)
    → (apply_defaults (apply_defaults lb) ≡ apply_defaults lb)
      × (record (apply_defaults lb) {
        health_check = lb.health_check;
        generic_info = lb.generic_info;
      }
          ≡ lb)
unfolding apply_defaults
apply_defaults_idempotent lb =
    (apply_defaults_of_IsComplete (apply_defaults lb) (apply_defaults-IsComplete lb), refl)
