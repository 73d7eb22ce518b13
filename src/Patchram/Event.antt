-- ===== src/Patchram/Event.antt =====
-- `hci_send_cmd`, `expired` and `read_event`.
pub mod Framing
use platform_system_bluetoot.Prelude.{
  ℕ, zero, suc, ◌+◌, ◌-◌, Bool, true, false, List, [], ◌∷◌, ◌++◌, ◌==◌, ltb, if◌then◌else◌, Bytes,
  length, get_or, take, drop, splice, min,
}
use platform_system_bluetoot.Patchram.Globals.{hci_reset}
use platform_system_bluetoot.Patchram.Device.{
  Arrival, gets, fails, timer, sent, alarm, Device, blocked, fault, done, stops, Run, Cmd, ◌>>=◌,
  ◌>>◌, output,
}

-- `hci_send_cmd`: `write` is asked to send the whole of `buf`, and what it returns is not looked at.
abbrev pub hci_send_cmd : Bytes → Cmd (Unit {0})
hci_send_cmd buf = output (sent buf)

-- The signal handler of the timer.
unfoldable pub expired : Cmd (Unit {0})
expired = do hci_send_cmd hci_reset; output (alarm 4)

-- `n` bytes go from the port to `buffer[i]` on.
unfoldable pub receive : ℕ → ℕ → Device → Device
receive i n d = record d { rx = drop n d.rx; buffer = splice d.buffer i (take n d.rx) }

-- A call `read(fd, &buffer[i], len)` that gets `n` bytes, and what the loop does next.
abbrev got : ℕ → ℕ → ℕ → Device → (Device → Run ℕ) → Run ℕ
got i len n d again =
    if ltb (length d.buffer) (i + n)
    then stops fault d
    else if ltb n len
    then again (receive i n d)
    else done (i + n) (receive i n d)

-- `while ((count = read(fd, &buffer[i], len)) < len) { i += count; len -= count; }`, and `i + count`
-- after it. A read that fails has the count -1. A read of no bytes returns at once, and one for
-- which no byte is there waits.
unfoldable pub read_loop : List Arrival → ℕ → ℕ → Cmd ℕ
unfolding receive expired
read_loop arrivals i zero d = done i (record d { arrivals = arrivals })
read_loop [] i (suc len) d =
    if ltb (length d.rx) (suc len)
    then stops blocked d
    else got i (suc len) (suc len) (record d { arrivals = [] }) (stops blocked)
read_loop (gets c ∷ arrivals) i (suc len) d =
    let n = min (suc len) (min (c + 1) (length d.rx)) in
    if n == 0
    then stops blocked d
    else got i (suc len) n (record d { arrivals = arrivals })
        (read_loop arrivals (i + n) (suc len - n))
read_loop (fails ∷ arrivals) zero (suc len) d = stops fault d
read_loop (fails ∷ arrivals) (suc i) (suc len) d = read_loop arrivals i (suc (suc len)) d
read_loop (timer ∷ arrivals) i (suc len) d =
    if d.alarm_set
    then (expired >> read_loop arrivals i (suc len)) d
    else read_loop arrivals i (suc len) d

-- `read_event`. The third byte of an event is the number of the bytes behind it.
unfoldable pub read_event : Cmd ℕ
unfolding read_loop
read_event d =
    (do
      i ← (λ d. read_loop d.arrivals 0 3 d)
      (λ d. read_loop d.arrivals i (get_or d.buffer 2 0) d))
      d
