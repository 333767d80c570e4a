-- ===== src/Preflight/Clear.antt =====
-- Lists of notes of which none is fatal.
use parallel_reduction_bench.Prelude.{
  ◌≡◌, refl, ap, Bool, true, false, ◌||◌, Bool-cases, ◌⊎◌, inl, inr, List, [], ◌∷◌, ◌++◌, any,
  String_eq, ◌==◌, arith,
}
use parallel_reduction_bench.Preflight.{Note, fatal, Problem, is_fatal, note_if, status}

abbrev pub IsClear : List Note → Type 0
IsClear notes = any is_fatal notes ≡ false

any-append :
    {A : Type 0} (p : A → Bool) (xs ys : List A) → any p (xs ++ ys) ≡ (any p xs || any p ys)
unfolding any
any-append p [] ys = refl
any-append p (x ∷ xs) ys = ground (arith, any-append p xs ys)

pub IsClear-append : (xs ys : List Note) → IsClear (xs ++ ys) → IsClear xs × IsClear ys
IsClear-append xs ys h = ground (arith, any-append is_fatal xs ys)

pub IsClear-note_if :
    (test : Bool) (problem : Problem) → IsClear (note_if test (fatal problem)) → test ≡ false
unfolding any
IsClear-note_if true problem h = h
IsClear-note_if false problem h = refl

pub status-IsClear : (notes : List Note) → status notes ≡ "ok" → IsClear notes
status-IsClear notes h = elim (Bool-cases (any is_fatal notes)) [
  | inl some_fatal ↦ absurd (cc (ap (λ s. s == "ok") (rw some_fatal at h)))
  | inr clear ↦ clear
]

pub status-cases : (notes : List Note) → (status notes ≡ "failed") ⊎ (status notes ≡ "ok")
status-cases notes = elim (Bool-cases (any is_fatal notes)) [
  | inl some_fatal ↦ rw some_fatal (inl refl)
  | inr clear ↦ rw clear (inr refl)
]
