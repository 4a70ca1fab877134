-- ===== src/Daemon/Running.antt =====
-- Which sink and which probe runs under an id, as a map, after the operations on the lists of them.
pub mod Sinks
pub mod Probes
pub mod Added
use slurm_tracer.Common.{
  ℕ, ◌≡◌, refl, sym, ap, ◌∙◌, inl, inr, List, [], ◌∷◌, ◌++◌, map, Option, none, some, true, false,
  arith, if◌then◌else◌,
}
use slurm_tracer.Text.{Bytes, same}
use slurm_tracer.Text.Laws.{same_iff}
use slurm_tracer.Dict.{Dict, text_key, lookup, erase}
use slurm_tracer.Dict.Retain.{IsSorted, lookup-Above}
use slurm_tracer.Daemon.{LoadedSink, LoadedProbe}

-- The address that stands under an id.
abbrev pub Running : Type 0
Running = Dict Bytes ℕ

abbrev pub sinks_running : List LoadedSink → Running
sinks_running [] = []
sinks_running (s ∷ ss) = (s.id, s.sink) ∷ sinks_running ss

abbrev pub probes_running : List LoadedProbe → Running
probes_running [] = []
probes_running (p ∷ ps) = (p.id, p.probe) ∷ probes_running ps

-- Each id stands once.
abbrev pub IsUnique : {V : Type 0} → Dict Bytes V → Type 0
IsUnique [] = Unit
IsUnique ((id, v) ∷ m) = (lookup id m ≡ none) × IsUnique m

pub IsSorted-IsUnique : {V : Type 0} → (m : Dict Bytes V) → IsSorted m → IsUnique m
IsSorted-IsUnique [] s = tt
IsSorted-IsUnique ((id, v) ∷ m) s = (lookup-Above id m s.0, IsSorted-IsUnique m s.1)

pub lookup-erase :
    (id x : Bytes) (m : Running)
    → IsUnique m
    → lookup x (erase id m) ≡ (if same id x then none else lookup x m)
unfolding lookup erase
lookup-erase id x [] u = ground arith
lookup-erase id x ((j, a) ∷ m) u =
    let found : same j id ≡ true → same id x ≡ true → lookup x m ≡ none =
      λ e f. ap (λ k. lookup k m) (sym ((same_iff j id).0 e ∙ (same_iff id x).0 f)) ∙ u.0 in
    ground (arith, lookup-erase id x m u.1, same_iff j id, same_iff id x, same_iff j x, found)

pub erase-IsUnique : (id : Bytes) (m : Running) → IsUnique m → IsUnique (erase id m)
unfolding erase
erase-IsUnique id [] u = tt
erase-IsUnique id ((j, a) ∷ m) u = ground (arith, erase-IsUnique id m u.1, lookup-erase id j m u.1)

abbrev pub otherwise : Option ℕ → Option ℕ → Option ℕ
otherwise none o = o
otherwise (some a) o = some a

pub lookup-snoc :
    (x id : Bytes) (a : ℕ) (m : Running)
    → lookup x (m ++ (id, a) ∷ []) ≡ otherwise (lookup x m) (if same id x then some a else none)
unfolding lookup
lookup-snoc x id a [] = refl
lookup-snoc x id a ((j, b) ∷ m) = ground (arith, lookup-snoc x id a m)

pub snoc-IsUnique :
    (id : Bytes) (a : ℕ) (m : Running)
    → lookup id m ≡ none
    → IsUnique m
    → IsUnique (m ++ (id, a) ∷ [])
unfolding lookup
snoc-IsUnique id a [] h u = (refl, tt)
snoc-IsUnique id a ((j, b) ∷ m) h u =
    ground (arith, snoc-IsUnique id a m, lookup-snoc j id a m, same_iff id j, same_iff j id)

pub sinks_running-append :
    (ss ts : List LoadedSink) → sinks_running (ss ++ ts) ≡ sinks_running ss ++ sinks_running ts
sinks_running-append [] ts = refl
sinks_running-append (s ∷ ss) ts = λ i. (s.id, s.sink) ∷ sinks_running-append ss ts i

pub probes_running-append :
    (ss ts : List LoadedProbe) → probes_running (ss ++ ts) ≡ probes_running ss ++ probes_running ts
probes_running-append [] ts = refl
probes_running-append (s ∷ ss) ts = λ i. (s.id, s.probe) ∷ probes_running-append ss ts i
