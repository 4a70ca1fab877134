-- ===== src/Daemon/Start/Outcome.antt =====
-- The start returns, and what it returns true for.
use slurm_tracer.Common.{
  ℕ, ◌<◌, ◌≡◌, refl, inl, inr, [], ◌∷◌, some, true, false, Bool, arith, Bool-cases,
}
use slurm_tracer.Text.{Bytes}
use slurm_tracer.Dict.{text_key}
use slurm_tracer.Attribution.Files.{is_dir}
use slurm_tracer.Attribution.Resolver.{CgroupResolver}
use slurm_tracer.Attribution.Resolver.Bootstrap
use slurm_tracer.Attribution.Resolver.Bootstrap.{walk}
use slurm_tracer.Attribution.Resolver.Bootstrap.Walk.{IsFinite, walk_ends}
use slurm_tracer.Config.{Config}
use slurm_tracer.Daemon.{Daemon}
use slurm_tracer.Daemon.Start.{Startup, Started, start}
use slurm_tracer.Daemon.Start.Begun.{Begun}

pub scan_ends :
    (w : Bytes → ℕ) (s : Startup) (r : CgroupResolver)
    → IsFinite s.fs w
    → w r.root < s.fuel
    → (q : CgroupResolver) × (ok : Bool) × (Bootstrap.start s.fuel s.fs s.offset r ≡ some (q, ok))
unfolding Bootstrap.start Bootstrap.scan
scan_ends w s r finite enough = elim (Bool-cases (is_dir s.fs r.root)) [
  | inr e ↦ (r, false, rw (e, Bootstrap.start) refl)
  | inl e ↦
      let (q, walked) =
        walk_ends w s.fuel s.fs s.offset r (r.root ∷ []) finite (omega (arith, enough)) in
      (Bootstrap.count_scan q, true, rw (e, walked, Bootstrap.start, Bootstrap.scan) refl)
]

-- What a start comes to.
abbrev Ends : Startup → Daemon → Type 0
Ends s d = (st : Started) × (start s d ≡ some st) × (st.ok ≡ true → Begun s d st.daemon)
