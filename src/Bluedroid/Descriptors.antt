-- ===== src/Bluedroid/Descriptors.antt =====
-- File descriptors of bluedroid/bluetooth.c: what a run opens, and what it closes.
use platform_system_bluetoot.Prelude.{
  ℕ, zero, suc, ◌+◌, ◌≤◌, ◌<◌, ◌≡◌, Bool, true, false, Option, none, some, [], ◌∷◌, arith, ◌==◌,
  if◌then◌else◌, ℤ, pos, negsuc, is_neg, minus_one,
}
use platform_system_bluetoot.Bluedroid.Kernel.{
  Call, type_path, open_rdonly, open_wronly, read_fd, close_fd, hci_socket, Reply, History, Kernel,
  State, M, unless_failed, branch,
}
use platform_system_bluetoot.Bluedroid.Runs.{Ensures, after}
use platform_system_bluetoot.Bluedroid.Rfkill.{
  out, init_rfkill_from, init_rfkill, ensure_rfkill, read_power, write_power, check_bluetooth_power,
  set_bluetooth_power,
}

-- Is the descriptor `fd` the number `k`? As 1 or 0.
abbrev pub is_fd : ℕ → ℤ → ℕ
is_fd k (pos n) = if n == k then 1 else 0
is_fd k (negsuc n) = 0

abbrev opens : ℕ → Call → Reply → ℕ
opens k (open_rdonly _) r = is_fd k r.ret
opens k (open_wronly _) r = is_fd k r.ret
opens k hci_socket r = is_fd k r.ret
opens k _ r = 0

abbrev closes : ℕ → Call → ℕ
closes k (close_fd fd) = is_fd k fd
closes k _ = 0

-- How often a call returned the descriptor `k`, and how often `k` was closed.
abbrev pub opened : ℕ → History → ℕ
opened k [] = 0
opened k ((c, r) ∷ h) = opens k c r + opened k h

abbrev pub closed : ℕ → History → ℕ
closed k [] = 0
closed k ((c, r) ∷ h) = closes k c + closed k h

-- From `h` to `h'` each descriptor was opened as often as it was closed, but for `fd`, which was
-- opened once more. A negative `fd` makes no exception.
abbrev pub Keeps : ℕ → ℤ → History → History → Type 0
Keeps k fd h h' = opened k h' + closed k h ≡ closed k h' + opened k h + is_fd k fd

abbrev pub Balances : {A : Type 0} → ℕ → History → Option (A × State) → Type 0
Balances k h = Ensures (λ _ s'. Keeps k minus_one h s'.history)

-- The system has fewer rfkill switches than the rounds that the search is given: the file of a
-- switch with a number from `rounds - 1` on cannot be opened.
pub record FewSwitches (kernel : Kernel) (rounds : ℕ) : Type 0 where
  pub some_round : 0 < rounds
  pub no_more :
      (h : History) (id : ℕ)
      → rounds ≤ id + 1
      → is_neg (kernel h (open_rdonly (type_path id))).ret ≡ true

module _ (kernel : Kernel) (k : ℕ) (h : History) where
  -- A run goes on from one that balances but for `fd`.
  pub Balances-bind :
      {A B : Type 0} (fd : ℤ) (r : Option (A × State)) (f : A → M B)
      → Ensures (λ _ s. Keeps k fd h s.history) r
      → ((a : A) (s : State) → Keeps k fd h s.history → Balances k h (f a s))
      → Balances k h (elim r [ none ↦ none | some (a, s) ↦ f a s ])
  Balances-bind fd none f balanced next = absurd balanced
  Balances-bind fd (some (a, s)) f balanced next = next a s balanced

  -- A run that balances by itself leaves open what is open.
  pub Keeps-Balances :
      {A : Type 0} (fd : ℤ) (h' : History) (r : Option (A × State))
      → Keeps k fd h h'
      → Balances k h' r
      → Ensures (λ _ s. Keeps k fd h s.history) r
  Keeps-Balances fd h' none e balanced = absurd balanced
  Keeps-Balances fd h' (some (a, s)) e balanced = omega arith

  pub branch-Balances :
      {A : Type 0} (b : Bool) (m n : M A) (s : State)
      → Balances k h (m s)
      → Balances k h (n s)
      → Balances k h (branch b m n s)
  branch-Balances true m n s this that = this
  branch-Balances false m n s this that = that

  pub unless_failed-Balances :
      (a : ℤ) (m : M ℤ) (s : State)
      → Keeps k minus_one h s.history
      → Balances k h (m s)
      → Balances k h (unless_failed a m s)
  unless_failed-Balances (pos n) m s e balanced = balanced
  unless_failed-Balances (negsuc n) m s e balanced = e

  pub out-Keeps :
      (fd ret : ℤ) (s : State) → Keeps k fd h s.history → Balances k h (out kernel fd ret s)
  unfolding out
  out-Keeps fd ret s e = ground arith

  -- The search from `id` on, with rounds enough to reach the first number that cannot be opened.
  init_rfkill_from-Balances :
      (rounds : ℕ)
      → FewSwitches kernel rounds
      → (left id : ℕ) (s : State) → rounds ≤ suc left + id
      → Keeps k minus_one h s.history
      → Balances k h (init_rfkill_from kernel (suc left) id s)
  unfolding init_rfkill_from
  init_rfkill_from-Balances rounds few zero id s enough e = ground (arith, few.no_more s.history id)
  init_rfkill_from-Balances rounds few (suc left) id s enough e =
      let opening = after kernel (open_rdonly (type_path id)) s in
      let fd : ℤ = (kernel s.history (open_rdonly (type_path id))).ret in
      let closing = after kernel (close_fd fd) (after kernel (read_fd fd 16) opening) in
      ground (arith, init_rfkill_from-Balances rounds few left (id + 1) closing)

  init_rfkill-Balances :
      (rounds : ℕ)
      → FewSwitches kernel rounds
      → (s : State) → Keeps k minus_one h s.history
      → Balances k h (init_rfkill kernel rounds s)
  unfolding init_rfkill
  init_rfkill-Balances zero few s e = absurd (omega (arith, few.some_round))
  init_rfkill-Balances (suc left) few s e =
      init_rfkill_from-Balances (suc left) few left 0 s (omega arith) e

  read_power-Balances :
      (s : State) → Keeps k minus_one h s.history → Balances k h (read_power kernel s)
  unfolding read_power
  read_power-Balances s e = ground arith

  write_power-Balances :
      (on : Bool) (s : State)
      → Keeps k minus_one h s.history
      → Balances k h (write_power kernel on s)
  unfolding write_power
  write_power-Balances on s e = ground arith

module _ (kernel : Kernel) (k : ℕ) (h : History) {rounds : ℕ}
    (few : FewSwitches kernel rounds) where
  pub ensure_rfkill-Balances :
      (s : State) → Keeps k minus_one h s.history → Balances k h (ensure_rfkill kernel rounds s)
  unfolding ensure_rfkill
  ensure_rfkill-Balances s e = ground (arith, init_rfkill-Balances kernel k h rounds few s)

  pub check_bluetooth_power-Balances :
      (s : State)
      → Keeps k minus_one h s.history
      → Balances k h (check_bluetooth_power kernel rounds s)
  unfolding check_bluetooth_power
  check_bluetooth_power-Balances s e =
      Balances-bind kernel k h minus_one (ensure_rfkill kernel rounds s)
        (λ a. unless_failed a (read_power kernel)) (ensure_rfkill-Balances s e)
        λ a s' e'.
          unless_failed-Balances kernel k h a (read_power kernel) s' e'
            (read_power-Balances kernel k h s' e')

  pub set_bluetooth_power-Balances :
      (on : Bool) (s : State)
      → Keeps k minus_one h s.history
      → Balances k h (set_bluetooth_power kernel rounds on s)
  unfolding set_bluetooth_power
  set_bluetooth_power-Balances on s e =
      Balances-bind kernel k h minus_one (ensure_rfkill kernel rounds s)
        (λ a. unless_failed a (write_power kernel on)) (ensure_rfkill-Balances s e)
        λ a s' e'.
          unless_failed-Balances kernel k h a (write_power kernel on) s' e'
            (write_power-Balances kernel k h on s' e')
