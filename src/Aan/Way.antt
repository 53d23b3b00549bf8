-- ===== src/Aan/Way.antt =====
-- One direction of the traffic, from the client `s` to the client `r`: what stays true of it.
use drawterm.Prelude.{
  ℕ, ◌+◌, ◌^◌, ◌<◌, ◌≤◌, ◌≡◌, true, false, List, [], length, All, take, drop, u32,
}
use drawterm.Aan.{bufsize, Buf, Client}
use drawterm.Aan.Flow.{Data, Numbered, Flows, Acks}

-- A message that the reader takes for data.
abbrev pub IsFull : List ℕ → Type 0
IsFull d = (0 < length d) × (length d ≤ bufsize)

-- `freed` messages are acknowledged, `got` were taken in, and the next on its way is `first`.
pub record Way (s r : Client) (chan back : List Buf) (log : Data) : Type 0 where
  pub freed : ℕ
  pub got : ℕ
  pub first : ℕ
  pub next_msg : s.outmsg ≡ u32 (length log)
  pub kept : Numbered freed s.unacked (drop freed log)
  pub last : s.lastacked ≡ u32 freed
  pub wanted : r.inmsg ≡ u32 got
  pub acks : Acks freed back got
  pub sent : got ≤ length log
  pub window : length log < freed + 2 ^ 31
  pub flows : s.up ≡ true → Flows first chan (drop first log)
  pub idle : s.up ≡ false → chan ≡ []
  pub in_log : first ≤ length log
  pub in_window : got < first + 2 ^ 31
  pub order : All IsFull log → first ≤ got
  pub prefix : r.given ≡ take (length r.given) log
  pub at_most : length r.given ≤ got
  pub open_all : r.closed ≡ false → length r.given ≡ got
