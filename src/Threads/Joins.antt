-- ===== src/Threads/Joins.antt =====
-- A main thread that waits for each thread that it starts: in every interleaving, no thread is left
-- when it returns.
use platform_system_bluetoot.Prelude.{
  ℕ, zero, suc, ◌+◌, ◌<◌, ◌≡◌, refl, ap, sym, subst, ◌⊎◌, inl, inr, Option, none, some, List, [],
  ◌∷◌, ◌++◌, arith, ◌==◌, if◌then◌else◌, ℤ, length, get_elem?, set, length-append, Bool-cases,
  Option-cases,
}
use platform_system_bluetoot.Threads.Program.{
  Program, returns, calls, creates, joins, out_of_rounds, IsThread,
}
use platform_system_bluetoot.Threads.System.{
  System, start, Step, main_calls, main_creates, main_joins, thread_calls, Reach, here, next,
}

-- A list without the first `t`, if `t` is in it.
abbrev pub remove : ℕ → List ℕ → Option (List ℕ)
remove t [] = none
remove t (x ∷ xs) =
    if t == x then some xs else elim (remove t xs) [ none ↦ none | some ys ↦ some (x ∷ ys) ]

pub remove_first : (t : ℕ) (xs : List ℕ) → remove t (t ∷ xs) ≡ some xs
remove_first t xs = ground arith

-- The program starts threads that start no others, waits for each of them once, and returns only
-- then. `n` threads were started before, and those of `pending` were not waited for.
abbrev pub WellJoined : {C : Type 0} → ℕ → List ℕ → Program C → Type 0
WellJoined n pending (returns r) = pending ≡ []
WellJoined n pending (calls c k) = (r : ℤ) → WellJoined n pending (k r)
WellJoined n pending (creates p k) = IsThread p × WellJoined (n + 1) (pending ++ n ∷ []) k
WellJoined n pending (joins i k) =
    (rest : List ℕ) × (remove i pending ≡ some rest) × WellJoined n rest k
WellJoined n pending out_of_rounds = ⊥

abbrev pub Returned : {C : Type 0} → Program C → Type 0
Returned (returns r) = Unit
Returned _ = ⊥

abbrev pub In : ℕ → List ℕ → Type 0
In i [] = ⊥
In i (x ∷ xs) = (i ≡ x) ⊎ In i xs

-- A thread that has not returned is one that the main thread will wait for.
pub record Inv {C : Type 0} (s : System C) : Type 0 where
  pub pending : List ℕ
  pub waits : WellJoined (length s.threads) pending s.main
  pub known : (i : ℕ) → In i pending → i < length s.threads
  pub left : (i : ℕ) (p : Program C) → get_elem? s.threads i ≡ some p → Returned p ⊎ In i pending
  pub simple : (i : ℕ) (p : Program C) → get_elem? s.threads i ≡ some p → IsThread p

In-append : (i : ℕ) (xs ys : List ℕ) → In i (xs ++ ys) → In i xs ⊎ In i ys
In-append i [] ys h = inr h
In-append i (x ∷ xs) ys (inl e) = inl (inl e)
In-append i (x ∷ xs) ys (inr h) = elim (In-append i xs ys h) [ inl l ↦ inl (inr l) | inr r ↦ inr r ]

In-append_left : (i : ℕ) (xs ys : List ℕ) → In i xs → In i (xs ++ ys)
In-append_left i [] ys h = absurd h
In-append_left i (x ∷ xs) ys (inl e) = inl e
In-append_left i (x ∷ xs) ys (inr h) = inr (In-append_left i xs ys h)

In-append_right : (i : ℕ) (xs ys : List ℕ) → In i ys → In i (xs ++ ys)
In-append_right i [] ys h = h
In-append_right i (x ∷ xs) ys h = inr (In-append_right i xs ys h)

remove-cases :
    (i x : ℕ) (xs : List ℕ) {rest : List ℕ}
    → remove i (x ∷ xs) ≡ some rest
    → ((i ≡ x) × (rest ≡ xs)) ⊎ ((ys : List ℕ) × (remove i xs ≡ some ys) × (rest ≡ x ∷ ys))
remove-cases i x xs e = elim (Option-cases (remove i xs)) [
  | inl lacks ↦ inl (ground arith, ground arith)
  | inr (ys, has) ↦ elim (Bool-cases (i == x)) [
    | inl same ↦ inl (ground arith, ground arith)
    | inr other ↦ inr (ys, has, ground arith)
  ]
]

-- What `remove` takes out and what it leaves.
record Removed (i : ℕ) (xs rest : List ℕ) : Type 0 where
  pub taken : In i xs
  pub kept : (j : ℕ) → In j xs → (j ≡ i) ⊎ In j rest
  pub old : (j : ℕ) → In j rest → In j xs

remove-Removed : (i : ℕ) (xs : List ℕ) {rest : List ℕ} → remove i xs ≡ some rest → Removed i xs rest
remove-Removed i [] e = cc
remove-Removed i (x ∷ xs) {rest} e = elim (remove-cases i x xs e) [
  | inl (same, all) ↦ record {
    taken = inl same;
    kept = λ j h. elim h [ inl first ↦ inl (cc) | inr later ↦ inr (subst (In j) (sym all) later) ];
    old = λ j h. inr (subst (In j) all h);
  }
  | inr (ys, has, all) ↦
      let r = remove-Removed i xs has in
      record {
        taken = inr r.taken;
        kept = λ j h. elim h [
          | inl first ↦ inr (subst (In j) (sym all) (inl first))
          | inr later ↦ elim (r.kept j later) [
            | inl same ↦ inl same
            | inr there ↦ inr (subst (In j) (sym all) (inr there))
          ]
        ];
        old = λ j h. elim (subst (In j) all h) [
          | inl first ↦ inl first
          | inr later ↦ inr (r.old j later)
        ];
      }
]

module _ {A : Type 0} where
  length-set : (xs : List A) (i : ℕ) (v : A) → length (set xs i v) ≡ length xs
  length-set [] i v = refl
  length-set (x ∷ xs) zero v = refl
  length-set (x ∷ xs) (suc i) v = ap suc (length-set xs i v)

  get_elem?-set :
      (xs : List A) (i : ℕ) (v : A) (j : ℕ) {w : A}
      → get_elem? (set xs i v) j ≡ some w
      → ((j ≡ i) × (w ≡ v)) ⊎ (get_elem? xs j ≡ some w)
  get_elem?-set [] i v j e = inr e
  get_elem?-set (x ∷ xs) zero v zero e = inl (refl, cc)
  get_elem?-set (x ∷ xs) zero v (suc j) e = inr e
  get_elem?-set (x ∷ xs) (suc i) v zero e = inr e
  get_elem?-set (x ∷ xs) (suc i) v (suc j) e = elim (get_elem?-set xs i v j e) [
    | inl (same, there) ↦ inl (ap suc same, there)
    | inr other ↦ inr other
  ]

  get_elem?-append :
      (xs : List A) (v : A) (j : ℕ) {w : A}
      → get_elem? (xs ++ v ∷ []) j ≡ some w
      → (get_elem? xs j ≡ some w) ⊎ ((j ≡ length xs) × (w ≡ v))
  get_elem?-append [] v zero e = inr (refl, cc)
  get_elem?-append [] v (suc j) e = cc
  get_elem?-append (x ∷ xs) v zero e = inl e
  get_elem?-append (x ∷ xs) v (suc j) e = elim (get_elem?-append xs v j e) [
    | inl there ↦ inl there
    | inr (last, same) ↦ inr (ap suc last, same)
  ]

  pub get_elem?-some : (xs : List A) (i : ℕ) → i < length xs → (v : A) × (get_elem? xs i ≡ some v)
  get_elem?-some [] i h = absurd (omega arith)
  get_elem?-some (x ∷ xs) zero h = (x, refl)
  get_elem?-some (x ∷ xs) (suc i) h = get_elem?-some xs i (omega arith)

start-Inv : {C : Type 0} (p : Program C) → WellJoined 0 [] p → Inv (start p)
start-Inv p w = record {
  pending = [];
  waits = w;
  known = λ i h. absurd h;
  left = λ i q e. cc;
  simple = λ i q e. cc;
}

module _ {C : Type 0} (s : System C) (inv : Inv s) where
  main_calls-Inv :
      (c : C) (k : ℤ → Program C) (r : ℤ)
      → s.main ≡ calls c k
      → Inv (record s { main = k r; log = (none, c, r) ∷ s.log })
  main_calls-Inv c k r e = record {
    pending = inv.pending;
    waits = subst (WellJoined (length s.threads) inv.pending) e inv.waits r;
    known = inv.known;
    left = inv.left;
    simple = inv.simple;
  }

  main_creates-Inv :
      (p k : Program C)
      → s.main ≡ creates p k
      → Inv (record s { main = k; threads = s.threads ++ p ∷ [] })
  main_creates-Inv p k e =
      let n = length s.threads in
      let w = subst (WellJoined n inv.pending) e inv.waits in
      let longer : length (s.threads ++ p ∷ []) ≡ n + 1 = length-append s.threads (p ∷ []) in
      record {
        pending = inv.pending ++ n ∷ [];
        waits = subst (λ m. WellJoined m (inv.pending ++ n ∷ []) k) (sym longer) w.1;
        known = λ i h. elim (In-append i inv.pending (n ∷ []) h) [
          | inl l ↦ omega (arith, inv.known i l)
          | inr (inl last) ↦ omega arith
          | inr (inr none_left) ↦ absurd none_left
        ];
        left = λ i q at. elim (get_elem?-append s.threads p i at) [
          | inl there ↦ elim (inv.left i q there) [
            | inl done ↦ inl done
            | inr more ↦ inr (In-append_left i inv.pending (n ∷ []) more)
          ]
          | inr (last, same) ↦ inr (In-append_right i inv.pending (n ∷ []) (inl last))
        ];
        simple = λ i q at. elim (get_elem?-append s.threads p i at) [
          | inl there ↦ inv.simple i q there
          | inr (last, same) ↦ subst IsThread (sym same) w.0
        ];
      }

  main_joins-Inv :
      (i : ℕ) (k : Program C) (r : ℤ)
      → s.main ≡ joins i k
      → get_elem? s.threads i ≡ some (returns r)
      → Inv (record s { main = k })
  main_joins-Inv i k r e at =
      let (rest, removed, w) = subst (WellJoined (length s.threads) inv.pending) e inv.waits in
      let m = remove-Removed i inv.pending removed in
      record {
        pending = rest;
        waits = w;
        known = λ j h. inv.known j (m.old j h);
        left = λ j q there. elim (inv.left j q there) [
          | inl done ↦ inl done
          | inr more ↦ elim (m.kept j more) [
            | inl same ↦ let equal : q ≡ returns r = cc in inl (subst Returned (sym equal) tt)
            | inr still ↦ inr still
          ]
        ];
        simple = inv.simple;
      }

  thread_calls-Inv :
      (i : ℕ) (c : C) (k : ℤ → Program C) (r : ℤ)
      → get_elem? s.threads i ≡ some (calls c k)
      → Inv (record s { threads = set s.threads i (k r); log = (some i, c, r) ∷ s.log })
  thread_calls-Inv i c k r at =
      let same_length = length-set s.threads i (k r) in
      let waited : In i inv.pending = elim (inv.left i (calls c k) at) [
        | inl done ↦ absurd done
        | inr more ↦ more
      ] in
      record {
        pending = inv.pending;
        waits = subst (λ m. WellJoined m inv.pending s.main) (sym same_length) inv.waits;
        known = λ j h. omega (arith, inv.known j h);
        left = λ j q there. elim (get_elem?-set s.threads i (k r) j there) [
          | inl (same, _) ↦ inr (subst (λ n. In n inv.pending) (sym same) waited)
          | inr old ↦ inv.left j q old
        ];
        simple = λ j q there. elim (get_elem?-set s.threads i (k r) j there) [
          | inl (_, goes_on) ↦ subst IsThread (sym goes_on) (inv.simple i (calls c k) at r)
          | inr old ↦ inv.simple j q old
        ];
      }

-- Every step keeps the invariant.
pub Step-Inv : {C : Type 0} {s t : System C} → Step s t → Inv s → Inv t
Step-Inv {s} (main_calls c k r e f) inv = subst Inv (sym f) (main_calls-Inv s inv c k r e)
Step-Inv {s} (main_creates p k e f) inv = subst Inv (sym f) (main_creates-Inv s inv p k e)
Step-Inv {s} (main_joins i k r e at f) inv = subst Inv (sym f) (main_joins-Inv s inv i k r e at)
Step-Inv {s} (thread_calls i c k r at f) inv = subst Inv (sym f) (thread_calls-Inv s inv i c k r at)

pub Reach-Inv :
    {C : Type 0} {p : Program C} {s : System C} → WellJoined 0 [] p → Reach (start p) s → Inv s
Reach-Inv {p} w here = start-Inv p w
Reach-Inv w (next r st) = Step-Inv st (Reach-Inv w r)

pub remove-mem : (i : ℕ) (xs : List ℕ) {rest : List ℕ} → remove i xs ≡ some rest → In i xs
remove-mem i xs e = (remove-Removed i xs e).taken
