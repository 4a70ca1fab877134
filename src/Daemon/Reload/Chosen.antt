-- ===== src/Daemon/Reload/Chosen.antt =====
-- The entries of a map that a reload adds: what `diff_components` names, with their settings.
use slurm_tracer.Common.{◌≡◌, refl, [], ◌∷◌, some, false, arith, All}
use slurm_tracer.Text.{Bytes, same}
use slurm_tracer.Text.Laws.{same_iff, before_irrefl}
use slurm_tracer.Dict.{Dict, text_key, lookup, retain}
use slurm_tracer.Dict.Retain.{IsSorted, Above}
use slurm_tracer.Config.{ComponentConfig, differs}

abbrev pub Components : Type 0
Components = Dict Bytes ComponentConfig

unfoldable pub chosen : Components → Components → Components
chosen m other = retain (differs other) m

-- Each entry of the first map is what the second holds under its id.
abbrev pub Agrees : Components → Components → Type 0
Agrees m full = All (λ e. lookup e.0 full ≡ some e.1) m

Agrees-cons :
    (j : Bytes) (c : ComponentConfig) (m full : Components)
    → Above j m
    → Agrees m full
    → Agrees m ((j, c) ∷ full)
unfolding lookup
Agrees-cons j c [] full s h = tt
Agrees-cons j c ((k, d) ∷ m) full s h =
    let apart : same j k ≡ false = ground (arith, same_iff j k, before_irrefl k, s.0) in
    (rw (apart, lookup) h.0, Agrees-cons j c m full s.1 h.1)

pub Agrees-refl : (m : Components) → IsSorted m → Agrees m m
unfolding lookup
Agrees-refl [] s = tt
Agrees-refl ((j, c) ∷ m) s =
    let itself = (same_iff j j).1 refl in
    (rw (itself, lookup) refl, Agrees-cons j c m m s.0 (Agrees-refl m s.1))
