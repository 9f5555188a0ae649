-- ===== src/Controller/Reconciler.antt =====
-- util/reconciler/defaults.go
use cluster_api_provider_vul.Base.{ℤ, pos, negsuc, zero, suc}

-- `DefaultLoopTimeout`, 90 minutes, in nanoseconds
abbrev pub default_loop_timeout : ℤ
default_loop_timeout = pos 5400000000000

-- `DefaultedLoopTimeout`
unfoldable pub defaulted_loop_timeout : ℤ → ℤ
defaulted_loop_timeout (pos zero) = default_loop_timeout
defaulted_loop_timeout (pos (suc n)) = pos (suc n)
defaulted_loop_timeout (negsuc n) = default_loop_timeout
