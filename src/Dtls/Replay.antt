-- ===== src/Dtls/Replay.antt =====
-- krabitls/src/dtls/replay.rs: the anti-replay window of one epoch.
-- A `u64` is a natural number; `<<` keeps the low 64 bits.
pub mod Window
pub mod Once
mod Tests
use krabitls_rs.Base.{
  ℕ, ◌-◌, ◌*◌, ◌%◌, ◌^◌, Bool, true, false, ◌||◌, not, ltb, leb, ◌==◌, if◌then◌else◌, bit_and,
  bit_or,
}

pub record ReplayWindow : Type 0 where
  pub highest : ℕ
  pub seen_any : Bool
  pub bitmap : ℕ

-- `WINDOW`
abbrev pub window : ℕ
window = 64

pub new : ReplayWindow
new = record { highest = 0; seen_any = false; bitmap = 0 }

pub accepts : ReplayWindow → ℕ → Bool
accepts w seq =
    if not w.seen_any || ltb w.highest seq
    then true
    else let delta = w.highest - seq in
      if leb window delta then false else bit_and w.bitmap (2 ^ delta) == 0

-- `self.bitmap << shift`, on 64 bits.
abbrev pub shl64 : ℕ → ℕ → ℕ
shl64 x shift = x * 2 ^ shift % 2 ^ 64

pub mark : ReplayWindow → ℕ → ReplayWindow
mark w seq =
    if not w.seen_any
    then record { highest = seq; seen_any = true; bitmap = 1 }
    else if ltb w.highest seq
    then (let shift = seq - w.highest in
        let slid = if leb window shift then 0 else shl64 w.bitmap shift in
        record w { highest = seq; bitmap = bit_or slid 1 })
    else let delta = w.highest - seq in
      if ltb delta window then record w { bitmap = bit_or w.bitmap (2 ^ delta) } else w
