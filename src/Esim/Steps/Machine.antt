-- ===== src/Esim/Steps/Machine.antt =====
-- The abstract machine of one modem's operation: what the page promises of a wait, without its documents, its
-- marks and its other modems.
use openwrt_apn_autoconfig.Prelude.{
  arith, ◌≡◌, ◌⊎◌, inl, inr, sym, ℕ, ◌+◌, ◌<◌, ◌≤◌, Bool, true, false, String, Option, none, some,
  Dict, lookup,
}
use openwrt_apn_autoconfig.Esim.{EsimPage, Pending}

pub data Phase : Type 0 where
  idle : Phase
  -- whether the operation was seen running, and the idle answers that were counted
  waiting : Bool → ℕ → Phase

pub data Move : Phase → Phase → Type 0 where
  launch : {x : Phase} → Move x (waiting false 0)
  find : Move idle (waiting true 0)
  see : {seen : Bool} {n : ℕ} → Move (waiting seen n) (waiting true n)
  count : {n : ℕ} → n < 4 → Move (waiting false n) (waiting false (n + 1))
  finish : {n : ℕ} → Move (waiting true n) idle
  give_up : {n : ℕ} → 4 ≤ n → Move (waiting false n) idle

-- One move, or none.
abbrev pub AtMost : Phase → Phase → Type 0
AtMost x y = (x ≡ y) ⊎ Move x y

abbrev pub phase_of : Option Pending → Phase
phase_of none = idle
phase_of (some p) = waiting p.started p.waited

-- What the page keeps of one modem's operation.
abbrev pub phase_in : String → Dict Pending → Phase
phase_in modem_id pending = phase_of (lookup modem_id pending)

abbrev pub phase : String → EsimPage → Phase
phase modem_id s = phase_in modem_id s.pending

-- The count of a wait is at most four.
abbrev pub IsBounded : Phase → Type 0
IsBounded idle = Unit
IsBounded (waiting seen n) = n ≤ 4

Move-IsBounded : {x y : Phase} → IsBounded x → Move x y → IsBounded y
Move-IsBounded h launch = omega arith
Move-IsBounded h find = omega arith
Move-IsBounded h see = h
Move-IsBounded h (count below) = omega arith
Move-IsBounded h finish = tt
Move-IsBounded h (give_up above) = tt

pub AtMost-IsBounded : {x y : Phase} → IsBounded x → AtMost x y → IsBounded y
AtMost-IsBounded h (inl e) = rw (sym e) h
AtMost-IsBounded h (inr m) = Move-IsBounded h m
