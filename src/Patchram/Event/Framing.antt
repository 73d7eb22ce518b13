-- ===== src/Patchram/Event/Framing.antt =====
-- `read_event` takes exactly one event from the port, however its bytes arrive.
use native.Mathlib.Decide.{dec_lt}
use platform_system_bluetoot.Prelude.{
  ℕ, zero, suc, ◌+◌, ◌-◌, ◌≤◌, ◌<◌, ◌≡◌, refl, ap, sym, ◌∙◌, Bool, false, List, [], ◌∷◌, ◌++◌,
  arith, Bytes, length, take, drop, splice, min, length-append, length-take, length-drop,
  length-splice, get_or, take-append_le, drop-append_le, take-append-drop, splice-splice,
  splice-nil, take-append, drop-append,
}
use platform_system_bluetoot.Patchram.Device.{
  Arrival, gets, fails, timer, Device, done, ◌>>=◌, Returns, Returns-bind, Returns-mono,
}
use platform_system_bluetoot.Patchram.Event.{receive, read_loop, read_event}

-- No read fails, and the timer does not expire if it may be set.
abbrev pub Smooth : Bool → List Arrival → Type 0
Smooth set [] = Unit
Smooth set (gets _ ∷ queue) = Smooth set queue
Smooth set (fails ∷ queue) = ⊥
Smooth set (timer ∷ queue) = (set ≡ false) × Smooth set queue

-- `set` says whether the timer may be set. `d'` is `d` after the bytes `xs` were read to
-- `buffer[i]` and what follows, with `rest` left.
pub record Received (set : Bool) (d : Device) (i : ℕ) (xs rest : Bytes) (d' : Device) : Type 0 where
  pub unread : d'.rx ≡ rest
  pub stored : d'.buffer ≡ splice d.buffer i xs
  pub smooth : Smooth set d'.arrivals
  pub same_hcd : d'.hcd ≡ d.hcd
  pub same_fails : d'.hcd_fails ≡ d.hcd_fails
  pub same_alarm : d'.alarm_set ≡ d.alarm_set
  pub same_log : d'.log ≡ d.log

-- The whole of `xs` is received at once.
receive-Received :
    (set : Bool) (queue : List Arrival) (i n : ℕ) (d : Device) (xs rest : Bytes)
    → Smooth set queue
    → d.rx ≡ xs ++ rest
    → length xs ≡ n
    → Received set d i xs rest (receive i n (record d { arrivals = queue }))
unfolding receive
receive-Received set queue i n d xs rest s e l = record {
  unread = rw (e, ← l) (drop-append xs rest);
  stored = ap (splice d.buffer i) (rw (e, ← l) (take-append xs rest));
  smooth = s;
  same_hcd = refl;
  same_fails = refl;
  same_alarm = refl;
  same_log = refl;
}

-- A first part of `xs` is received, and the rest of it later.
Received-later :
    (set : Bool) (queue : List Arrival) (i n : ℕ) (d d' : Device) (xs rest : Bytes)
    → n ≤ length xs
    → d.rx ≡ xs ++ rest
    → Received set (receive i n (record d { arrivals = queue })) (i + n) (drop n xs) rest d'
    → Received set d i xs rest d'
unfolding receive
Received-later set queue i n d d' xs rest h e r = record {
  unread = r.unread;
  stored =
      r.stored
      ∙ splice-splice d.buffer i (take n d.rx) (drop n xs) (i + n)
          (omega (arith, length-take n d.rx, ap length e, length-append xs rest))
      ∙ ap (splice d.buffer i) (rw (e, take-append_le n xs rest h) (take-append-drop n xs));
  smooth = r.smooth;
  same_hcd = r.same_hcd;
  same_fails = r.same_fails;
  same_alarm = r.same_alarm;
  same_log = r.same_log;
}

module _ (i len : ℕ) (d : Device) where
  read_loop-nil :
      suc len ≤ length d.rx
      → i + suc len ≤ length d.buffer
      → read_loop [] i (suc len) d
        ≡ done (i + suc len) (receive i (suc len) (record d { arrivals = [] }))
  unfolding read_loop
  read_loop-nil enough fits = ground arith

  module _ (queue : List Arrival) where
    read_loop-all :
        (c : ℕ)
        → suc len ≤ length d.rx
        → suc len ≤ c + 1
        → i + suc len ≤ length d.buffer
        → read_loop (gets c ∷ queue) i (suc len) d
          ≡ done (i + suc len) (receive i (suc len) (record d { arrivals = queue }))
    unfolding read_loop
    read_loop-all c enough all fits =
        rw (let e : min (suc len) (min (c + 1) (length d.rx)) ≡ suc len = omega arith in e)
          (ground arith)

    pub read_loop-part :
        (c : ℕ)
        → suc len ≤ length d.rx
        → c < len
        → i + suc len ≤ length d.buffer
        → read_loop (gets c ∷ queue) i (suc len) d
          ≡ read_loop queue
              (i + (c + 1))
              (suc len - (c + 1))
              (receive i (c + 1) (record d { arrivals = queue }))
    unfolding read_loop
    read_loop-part c enough part fits =
        rw (let e : min (suc len) (min (c + 1) (length d.rx)) ≡ c + 1 = omega arith in e)
          (ground arith)

    read_loop-timer :
        d.alarm_set ≡ false
        → read_loop (timer ∷ queue) i (suc len) d ≡ read_loop queue i (suc len) d
    unfolding read_loop
    read_loop-timer off = ground arith

abbrev Reads : Bool → Device → ℕ → ℕ → Bytes → Bytes → ℕ → Device → Type 0
Reads set d i len xs rest n d' = (n ≡ i + len) × Received set d i xs rest d'

read_loop-Received :
    (set : Bool) (queue : List Arrival) (i len : ℕ) (d : Device) (xs rest : Bytes)
    → (set ≡ false → d.alarm_set ≡ false)
    → Smooth set queue
    → d.rx ≡ xs ++ rest
    → length xs ≡ len
    → i + len ≤ length d.buffer
    → Returns (Reads set d i len xs rest) (read_loop queue i len d)
unfolding read_loop
read_loop-Received set queue i zero d [] rest off s e l fits = (
  omega arith,
  record {
    unread = e;
    stored = sym (splice-nil d.buffer i);
    smooth = s;
    same_hcd = refl;
    same_fails = refl;
    same_alarm = refl;
    same_log = refl;
  },
)
read_loop-Received set queue i zero d (x ∷ xs) rest off s e l fits = absurd (omega arith)
read_loop-Received set [] i (suc len) d xs rest off s e l fits =
    rw (read_loop-nil i len d (omega (arith, ap length e, length-append xs rest)) fits)
      (refl, receive-Received set [] i (suc len) d xs rest tt e l)
read_loop-Received set (gets c ∷ queue) i (suc len) d xs rest off s e l fits =
    let enough : suc len ≤ length d.rx = omega (arith, ap length e, length-append xs rest) in
    elim (dec_lt c len) [
      | no all ↦
          rw (read_loop-all i len d queue c enough (omega arith) fits)
            (refl, receive-Received set queue i (suc len) d xs rest s e l)
      | yes part ↦
          let n : ℕ = c + 1 in
          let d' = receive i n (record d { arrivals = queue }) in
          let later =
            read_loop-Received set queue (i + n) (suc len - n) d' (drop n xs) rest off s
              (ap (drop n) e ∙ drop-append_le n xs rest (omega arith))
              (omega (arith, length-drop n xs))
              (omega (arith, length-splice d.buffer i (take n d.rx))) in
          rw (read_loop-part i len d queue c enough part fits) (
            Returns-mono (Reads set d' (i + n) (suc len - n) (drop n xs) rest)
              (Reads set d i (suc len) xs rest) _ later
              (λ k d2 (at, r).
                (omega arith, Received-later set queue i n d d2 xs rest (omega arith) e r)))
    ]
read_loop-Received set (fails ∷ queue) i (suc len) d xs rest off s e l fits = absurd s
read_loop-Received set (timer ∷ queue) i (suc len) d xs rest off (no_timer, s) e l fits =
    rw (read_loop-timer i len d queue (off no_timer))
      (read_loop-Received set queue i (suc len) d xs rest off s e l fits)

-- An event: two bytes, the number of its parameters, and these.
abbrev pub event : ℕ → ℕ → Bytes → Bytes
event a b params = a ∷ b ∷ length params ∷ params

get_or-splice_two :
    (xs : Bytes) (a b c : ℕ) → 3 ≤ length xs → get_or (splice xs 0 (a ∷ b ∷ c ∷ [])) 2 0 ≡ c
get_or-splice_two [] a b c h = absurd (omega arith)
get_or-splice_two (x ∷ []) a b c h = absurd (omega arith)
get_or-splice_two (x ∷ y ∷ []) a b c h = absurd (omega arith)
get_or-splice_two (x ∷ y ∷ z ∷ xs) a b c h = refl

-- Two parts that follow one another are received as one.
Received-append :
    (set : Bool) (d d1 d2 : Device) (xs ys rest : Bytes)
    → Received set d 0 xs (ys ++ rest) d1
    → Received set d1 (length xs) ys rest d2
    → Received set d 0 (xs ++ ys) rest d2
Received-append set d d1 d2 xs ys rest r q = record {
  unread = q.unread;
  stored =
      q.stored
      ∙ ap (λ b. splice b (length xs) ys) r.stored
      ∙ splice-splice d.buffer 0 xs ys (length xs) (omega arith);
  smooth = q.smooth;
  same_hcd = q.same_hcd ∙ r.same_hcd;
  same_fails = q.same_fails ∙ r.same_fails;
  same_alarm = q.same_alarm ∙ r.same_alarm;
  same_log = q.same_log ∙ r.same_log;
}

-- The two loops of `read_event`, the first one with the arrivals `queue`.
pub loops-Received :
    (set : Bool) (queue : List Arrival) (d : Device) (a b : ℕ) (params rest : Bytes)
    → (set ≡ false → d.alarm_set ≡ false)
    → Smooth set queue
    → d.rx ≡ event a b params ++ rest
    → length params < 256
    → length d.buffer ≡ 1024
    → Returns
        (λ n d'. (n ≡ length (event a b params)) × Received set d 0 (event a b params) rest d')
        ((read_loop queue 0 3 >>= λ i d1. read_loop d1.arrivals i (get_or d1.buffer 2 0) d1) d)
loops-Received set queue d a b params rest off s e small size =
    let head = a ∷ b ∷ length params ∷ [] in
    Returns-bind (Reads set d 0 3 head (params ++ rest))
      (λ n d'. (n ≡ length (event a b params)) × Received set d 0 (event a b params) rest d')
      (read_loop queue 0 3 d) (λ i d1. read_loop d1.arrivals i (get_or d1.buffer 2 0) d1)
      (read_loop-Received set queue 0 3 d head (params ++ rest) off s e refl (omega arith))
      λ i d1 (at, r).
        let len : get_or d1.buffer 2 0 ≡ length params =
          rw r.stored (get_or-splice_two d.buffer a b (length params) (omega arith)) in
        rw (at, len)
          (Returns-mono (Reads set d1 3 (length params) params rest)
            (λ n d'. (n ≡ length (event a b params)) × Received set d 0 (event a b params) rest d')
            _
            (read_loop-Received set d1.arrivals 3 (length params) d1 params rest
              (λ no. r.same_alarm ∙ off no) r.smooth r.unread refl
              (omega (arith, ap length r.stored, length-splice d.buffer 0 head)))
            (λ k d2 (at2, q). (omega arith, Received-append set d d1 d2 head params rest r q)))

-- If no read fails and the timer does not expire where it may be set, then for an event of fewer than
-- 256 parameters and a buffer of 1024 bytes `read_event` ends and takes exactly the event from the
-- port, however its bytes arrive: it returns the event's size, leaves what follows the event, stores
-- the event at the start of the buffer with no write outside of it, and sends nothing.
pub read_event-Received :
    (set : Bool) (d : Device) (a b : ℕ) (params rest : Bytes)
    → (set ≡ false → d.alarm_set ≡ false)
    → Smooth set d.arrivals
    → d.rx ≡ event a b params ++ rest
    → length params < 256
    → length d.buffer ≡ 1024
    → Returns
        (λ n d'. (n ≡ length (event a b params)) × Received set d 0 (event a b params) rest d')
        (read_event d)
unfolding read_event
read_event-Received set d a b params rest off s e small size =
    loops-Received set d.arrivals d a b params rest off s e small size
