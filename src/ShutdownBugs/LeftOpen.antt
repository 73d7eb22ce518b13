-- ===== src/ShutdownBugs/LeftOpen.antt =====
-- Which sockets the programs tools/sock_shutdown_bug_….c leave open, and with which addresses they
-- work.
use platform_system_bluetoot.Prelude.{
  ℕ, ◌≡◌, refl, ap, Bool, false, List, [], ◌∷◌, Option, none, some, ◌==◌, if◌then◌else◌, ℤ, pos,
  negsuc, is_neg, Bytes, codes, arith,
}
use platform_system_bluetoot.Bluedroid.Address.{str2ba, ba2str, str2ba-ba2str}
use platform_system_bluetoot.Libc.Hex.{print_byte, upper_digit}
use platform_system_bluetoot.ShutdownBugs.Calls.{
  l2, rc, inet, SockAddr, socket, connects, binds, shuts_down, closes, History, Kernel, M, ◌>>=◌,
}
use platform_system_bluetoot.ShutdownBugs.Programs.{
  get_address, set_nonblock, main_l2cap, main_rfcomm, main_tcp,
}

abbrev same_fd : ℤ → ℤ → Bool
same_fd (pos m) (pos n) = m == n
same_fd (negsuc m) (negsuc n) = m == n
same_fd _ _ = false

-- The descriptor is closed, once.
abbrev without : ℤ → List ℤ → List ℤ
without fd [] = []
without fd (x ∷ xs) = let rest = without fd xs in if same_fd fd x then xs else x ∷ rest

abbrev pub opened : ℤ → List ℤ → List ℤ
opened fd fds = if is_neg fd then fds else fd ∷ fds

-- The sockets that are open behind the calls.
abbrev pub left_open : History → List ℤ
left_open [] = []
left_open ((socket _ _ _, fd) ∷ h) = opened fd (left_open h)
left_open ((closes fd, _) ∷ h) = without fd (left_open h)
left_open (_ ∷ h) = left_open h

-- The sockets that were shut down, the latest first.
abbrev pub shut : History → List ℤ
shut [] = []
shut ((shuts_down fd, _) ∷ h) = fd ∷ shut h
shut (_ ∷ h) = shut h

-- The addresses that a socket was connected or bound to, the latest first.
abbrev pub addressed : History → List (ℤ × SockAddr)
addressed [] = []
addressed ((connects fd addr, _) ∷ h) = (fd, addr) ∷ addressed h
addressed ((binds fd addr, _) ∷ h) = (fd, addr) ∷ addressed h
addressed (_ ∷ h) = addressed h

-- A program returns 0, and this holds of its calls.
abbrev pub Exits : (History → Type 0) → Option (ℤ × History) → Type 0
Exits P none = ⊥
Exits P (some (ret, h)) = (ret ≡ pos 0) × P h

abbrev pub L2capCalls : ℕ → History → Type 0
L2capCalls cid h =
    (fd : ℤ) × (left_open h ≡ [])
    × (shut h ≡ fd ∷ [])
    × (addressed h ≡ (fd, l2 31 1 (0x0c ∷ 0x0b ∷ 0x0a ∷ 0x02 ∷ 0x01 ∷ 0x00 ∷ []) cid) ∷ [])

abbrev rfcomm_address : SockAddr
rfcomm_address = rc 31 (0x00 ∷ 0xa8 ∷ 0x2c ∷ 0xe8 ∷ 0x17 ∷ 0x00 ∷ []) 19

abbrev pub RfcommCalls : History → Type 0
RfcommCalls h =
    (fd : ℤ) × (second : ℤ) × (left_open h ≡ opened second (opened fd []))
    × (shut h ≡ second ∷ fd ∷ [])
    × (addressed h ≡ (second, rfcomm_address) ∷ (fd, rfcomm_address) ∷ [])

abbrev pub TcpCalls : ℕ → History → Type 0
TcpCalls stack h =
    (fd : ℤ) × (second : ℤ) × (left_open h ≡ opened second [])
    × (shut h ≡ [])
    × (addressed h ≡ (second, inet 2 12348 stack) ∷ (fd, inet 2 12348 stack) ∷ [])

opened-without : (fd : ℤ) → without fd (opened fd []) ≡ []
opened-without (pos n) = ground arith
opened-without (negsuc n) = refl

get_address-Exits :
    (P : History → Type 0) (str stack ba : Bytes) (f : Bytes → M ℤ) (h : History)
    → str2ba str stack ≡ some ba
    → Exits P (f ba h)
    → Exits P ((get_address str stack >>= f) h)
get_address-Exits P str stack ba f h e ends = rw (◌>>=◌, e) ends

module _ (a0 a1 a2 a3 a4 a5 : ℕ) where
  str2ba-l2cap :
      str2ba (codes "00:01:02:0A:0B:0C") (a0 ∷ a1 ∷ a2 ∷ a3 ∷ a4 ∷ a5 ∷ [])
      ≡ some (0x0c ∷ 0x0b ∷ 0x0a ∷ 0x02 ∷ 0x01 ∷ 0x00 ∷ [])
  unfolding ba2str print_byte upper_digit
  str2ba-l2cap =
      str2ba-ba2str 0x0c 0x0b 0x0a 0x02 0x01 0x00 a0 a1 a2 a3 a4 a5 (omega arith) (omega arith)
        (omega arith) (omega arith) (omega arith) (omega arith)

  str2ba-rfcomm :
      str2ba (codes "00:17:E8:2C:A8:00") (a0 ∷ a1 ∷ a2 ∷ a3 ∷ a4 ∷ a5 ∷ [])
      ≡ some (0x00 ∷ 0xa8 ∷ 0x2c ∷ 0xe8 ∷ 0x17 ∷ 0x00 ∷ [])
  unfolding ba2str print_byte upper_digit
  str2ba-rfcomm =
      str2ba-ba2str 0x00 0xa8 0x2c 0xe8 0x17 0x00 a0 a1 a2 a3 a4 a5 (omega arith) (omega arith)
        (omega arith) (omega arith) (omega arith) (omega arith)

  main_l2cap-Exits :
      (kernel : Kernel) (cid : ℕ)
      → Exits (L2capCalls cid) (main_l2cap kernel (a0 ∷ a1 ∷ a2 ∷ a3 ∷ a4 ∷ a5 ∷ []) cid [])
  unfolding main_l2cap set_nonblock
  main_l2cap-Exits kernel cid =
      get_address-Exits (L2capCalls cid) _ _ _ _ [] str2ba-l2cap
        (refl, (kernel [] (socket 31 5 0), opened-without (kernel [] (socket 31 5 0)), refl, refl))

  main_rfcomm-Exits :
      (kernel : Kernel)
      → Exits RfcommCalls (main_rfcomm kernel (a0 ∷ a1 ∷ a2 ∷ a3 ∷ a4 ∷ a5 ∷ []) [])
  unfolding main_rfcomm set_nonblock
  main_rfcomm-Exits kernel =
      get_address-Exits RfcommCalls _ _ _ _ [] str2ba-rfcomm
        (refl, (kernel [] (socket 31 1 3), _, refl, refl, refl))

main_tcp-Exits : (kernel : Kernel) (stack : ℕ) → Exits (TcpCalls stack) (main_tcp kernel stack [])
unfolding main_tcp
main_tcp-Exits kernel stack =
    let fd : ℤ = kernel [] (socket 2 1 0) in
    (refl, (fd, _, ap (opened _) (opened-without fd), refl, refl))

-- Whatever the system returns, and whatever the variables held that the programs do not set, each
-- of the three programs ends with 0. That for L2CAP shuts down and closes its socket, and connects
-- it to 00:01:02:0A:0B:0C. That for RFCOMM connects two sockets to 00:17:E8:2C:A8:00, shuts down
-- both, and leaves open those that it got. That for TCP binds two sockets to the same address,
-- shuts down none, and leaves open the second one if it got it.
pub mains-Exit :
    (kernel : Kernel) (a0 a1 a2 a3 a4 a5 cid stack : ℕ)
    → Exits (L2capCalls cid) (main_l2cap kernel (a0 ∷ a1 ∷ a2 ∷ a3 ∷ a4 ∷ a5 ∷ []) cid [])
      × Exits RfcommCalls (main_rfcomm kernel (a0 ∷ a1 ∷ a2 ∷ a3 ∷ a4 ∷ a5 ∷ []) [])
      × Exits (TcpCalls stack) (main_tcp kernel stack [])
mains-Exit kernel a0 a1 a2 a3 a4 a5 cid stack = (
  main_l2cap-Exits a0 a1 a2 a3 a4 a5 kernel cid,
  main_rfcomm-Exits a0 a1 a2 a3 a4 a5 kernel,
  main_tcp-Exits kernel stack,
)
