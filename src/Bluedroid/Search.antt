-- ===== src/Bluedroid/Search.antt =====
-- Which rfkill switch `init_rfkill` chooses.
use native.Mathlib.Decide.{dec_lt}
use platform_system_bluetoot.Prelude.{
  ℕ, zero, suc, ◌+◌, ◌<◌, ◌≤◌, ◌≡◌, refl, ◌∙◌, Bool, true, false, ◌⊎◌, inl, inr, some, arith, ◌∷◌,
  ℤ, pos, is_neg, minus_one, Bool-cases, Bytes, codes, [], ◌&&◌, leb, min, length, take,
}
use platform_system_bluetoot.Libc.Chars.{equal, starts_with}
use platform_system_bluetoot.Bluedroid.Kernel.{
  type_path, state_path, open_rdonly, read_fd, close_fd, Reply, History, Kernel, State,
}
use platform_system_bluetoot.Bluedroid.Runs.{Ensures, after}
use platform_system_bluetoot.Bluedroid.Rfkill.{is_bluetooth, init_rfkill_from, init_rfkill}

-- A read of sixteen bytes from the start of a file that holds this text.
abbrev pub Gives : Bytes → Reply → Type 0
Gives text r = (r.ret ≡ pos (min 16 (length text))) × (r.got ≡ take 16 text)

-- The system has the switches with the numbers below `n`, without a gap, and `types` has what the
-- type file of each holds: this is read from it when it was opened.
pub record Switches (kernel : Kernel) (n : ℕ) (types : ℕ → Bytes) : Type 0 where
  pub present :
      (h : History) (id : ℕ) → id < n → is_neg (kernel h (open_rdonly (type_path id))).ret ≡ false
  pub absent :
      (h : History) (id : ℕ) → n ≤ id → is_neg (kernel h (open_rdonly (type_path id))).ret ≡ true
  pub tells :
      (h : History) (id : ℕ) (r : Reply)
      → id < n
      → Gives (types id) (kernel ((open_rdonly (type_path id), r) ∷ h) (read_fd r.ret 16))

-- The text begins with the word that stands for Bluetooth.
abbrev pub names_bluetooth : Bytes → Bool
names_bluetooth text = starts_with (codes "bluetooth") text

-- A prefix of a text, by its length and a comparison of what was read of the text.
prefix-starts_with :
    (p text : Bytes) (n : ℕ)
    → length p ≤ n
    → (leb (length p) (min n (length text)) && equal (take (length p) (take n text)) p)
      ≡ starts_with p text
unfolding equal starts_with
prefix-starts_with [] text n h = ground arith
prefix-starts_with (c ∷ p) text zero h = absurd (omega arith)
prefix-starts_with (c ∷ p) [] (suc n) h = ground arith
prefix-starts_with (c ∷ p) (d ∷ text) (suc n) h =
    ground (arith, prefix-starts_with p text n (omega arith))

-- `init_rfkill` knows a Bluetooth switch by what it reads.
Gives-is_bluetooth :
    (text : Bytes) (r : Reply) → Gives text r → is_bluetooth r ≡ names_bluetooth text
unfolding is_bluetooth
Gives-is_bluetooth text r (e, f) =
    rw (e, f) (prefix-starts_with (codes "bluetooth") text 16 (omega arith))

-- The switch `id` is the first one for Bluetooth, and the state names it.
pub record Chosen (n : ℕ) (types : ℕ → Bytes) (s : State) : Type 0 where
  pub id : ℕ
  pub exists : id < n
  pub is_bluetooth : names_bluetooth (types id) ≡ true
  pub is_first : (j : ℕ) → j < id → names_bluetooth (types j) ≡ false
  pub names_id : s.rfkill_id ≡ pos id
  pub names_path : s.rfkill_state_path ≡ state_path id

-- There is no Bluetooth switch, and the state names what it named before.
pub record NoneChosen (n : ℕ) (types : ℕ → Bytes) (old s : State) : Type 0 where
  pub no_bluetooth : (j : ℕ) → j < n → names_bluetooth (types j) ≡ false
  pub keeps_id : s.rfkill_id ≡ old.rfkill_id
  pub keeps_path : s.rfkill_state_path ≡ old.rfkill_state_path

abbrev pub Search : ℕ → (ℕ → Bytes) → State → ℤ → State → Type 0
Search n types old ret s =
    ((ret ≡ pos 0) × Chosen n types s) ⊎ ((ret ≡ minus_one) × NoneChosen n types old s)

module _ (kernel : Kernel) {n : ℕ} {types : ℕ → Bytes} (w : Switches kernel n types) where
  abbrev bluetooth : ℕ → Bool
  bluetooth id = names_bluetooth (types id)

  below_suc :
      (id : ℕ)
      → bluetooth id ≡ false
      → ((j : ℕ) → j < id → bluetooth j ≡ false)
      → (j : ℕ) → j < id + 1
      → bluetooth j ≡ false
  below_suc id this below j h = elim (dec_lt j id) [
    | yes less ↦ below j less
    | no same ↦ rw (let e : j ≡ id = omega arith in e) this
  ]

  module _ (rounds id : ℕ) (s : State) where
    abbrev opening : State
    opening = after kernel (open_rdonly (type_path id)) s

    abbrev switch : ℤ
    switch = (kernel s.history (open_rdonly (type_path id))).ret

    abbrev closing : State
    closing = after kernel (close_fd switch) (after kernel (read_fd switch 16) opening)

    round-absent :
        is_neg switch ≡ true → init_rfkill_from kernel (suc rounds) id s ≡ some (minus_one, opening)
    unfolding init_rfkill_from
    round-absent e = ground arith

    round-found :
        is_neg switch ≡ false
        → is_bluetooth (kernel opening.history (read_fd switch 16)) ≡ true
        → init_rfkill_from kernel (suc rounds) id s
          ≡ some (pos 0, record closing { rfkill_id = pos id; rfkill_state_path = state_path id })
    unfolding init_rfkill_from
    round-found e t = ground arith

    round-next :
        is_neg switch ≡ false
        → is_bluetooth (kernel opening.history (read_fd switch 16)) ≡ false
        → init_rfkill_from kernel (suc rounds) id s
          ≡ init_rfkill_from kernel rounds (id + 1) closing
    unfolding init_rfkill_from
    round-next e t = ground arith

  Search-from :
      (rounds id : ℕ) (old s : State)
      → n < rounds + id
      → id ≤ n
      → ((j : ℕ) → j < id → bluetooth j ≡ false)
      → s.rfkill_id ≡ old.rfkill_id
      → s.rfkill_state_path ≡ old.rfkill_state_path
      → Ensures (Search n types old) (init_rfkill_from kernel rounds id s)
  Search-from zero id old s enough in_range below same_id same_path = absurd (omega arith)
  Search-from (suc rounds) id old s enough in_range below same_id same_path = elim (dec_lt id n) [
    | no last ↦ rw (round-absent rounds id s (w.absent s.history id (omega arith))) (
        inr (
          refl,
          record {
            no_bluetooth = λ j h. below j (omega arith);
            keeps_id = same_id;
            keeps_path = same_path;
          },
        ))
    | yes more ↦
        let there = w.present s.history id more in
        let r = kernel s.history (open_rdonly (type_path id)) in
        let told =
          Gives-is_bluetooth (types id)
            (kernel ((open_rdonly (type_path id), r) ∷ s.history) (read_fd r.ret 16))
            (w.tells s.history id r more) in
        elim (Bool-cases (bluetooth id)) [
          | inl hit ↦ rw (round-found rounds id s there (told ∙ hit)) (
              inl (
                refl,
                record {
                  id = id;
                  exists = more;
                  is_bluetooth = hit;
                  is_first = below;
                  names_id = refl;
                  names_path = refl;
                },
              ))
          | inr miss ↦ rw (round-next rounds id s there (told ∙ miss)) (
              Search-from rounds (id + 1) old (closing rounds id s) (omega arith) (omega arith)
                (below_suc id miss below) same_id same_path)
        ]
  ]

-- On a system whose switches have the numbers below `n`, without a gap, and with more rounds than
-- switches, where a read of a type file gives the first sixteen bytes of it or all: `init_rfkill`
-- ends. It returns 0 and sets the two variables to the first switch whose type file begins with
-- `bluetooth`, if there is one; if there is none, it returns -1 and leaves the variables as they were.
pub init_rfkill-Search :
    (kernel : Kernel) (rounds : ℕ) {n : ℕ} {types : ℕ → Bytes} (s : State)
    → Switches kernel n types
    → n < rounds
    → Ensures (Search n types s) (init_rfkill kernel rounds s)
unfolding init_rfkill
init_rfkill-Search kernel rounds s w enough =
    Search-from kernel w rounds 0 s s (omega arith) (omega arith) (λ j h. elim h [ ]) refl refl
