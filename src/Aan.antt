-- ===== src/Aan.antt =====
-- aan.c: a connection that outlives its network connections, by numbered messages that are kept
-- until they are acknowledged and sent again on each new network connection.
pub mod Flow
pub mod Log
pub mod Release
pub mod Reader
pub mod System
pub mod Way
pub mod Sends
pub mod Reads
pub mod Acked
pub mod Safety
pub mod Delivery
pub mod Tests
use drawterm.Prelude.{
  ℕ, ◌+◌, ◌-◌, ◌^◌, ◌<◌, ◌≤◌, ◌≡◌, Bool, true, false, ◌&&◌, ◌||◌, Option, none, some, List, [], ◌∷◌,
  ◌++◌, map, length, ltb, leb, ◌==◌, if◌then◌else◌, u32,
}

abbrev pub bufsize : ℕ
bufsize = 8192

-- The `msg` of a message that carries an acknowledgement only.
abbrev pub sync_msg : ℕ
sync_msg = 0xffff_ffff

-- `Buf`, with the fields of its `Hdr`.
pub record Buf : Type 0 where
  pub nb : ℕ
  pub msg : ℕ
  pub acked : ℕ
  pub bytes : List ℕ

-- `up`: `netfd` is open, and writes to it succeed. `lastacked` is a variable of `aanreader`;
-- `given` is what it wrote to the pipe, and `closed` whether it has left its loop.
pub record Client : Type 0 where
  pub up : Bool
  pub pipe_open : Bool
  pub inmsg : ℕ
  pub outmsg : ℕ
  pub unacked : List Buf
  pub lastacked : ℕ
  pub given : List (List ℕ)
  pub closed : Bool

-- `c->outmsg++` and the header, in `aanwriter`.
unfoldable pub new_buf : List ℕ → Client → Buf
new_buf bytes c = record { nb = length bytes; msg = c.outmsg; acked = c.inmsg; bytes = bytes }

-- One round of `aanwriter`, after `n` bytes were read from the pipe; the messages are those that
-- it wrote to the network. An empty message that is sent ends the loop.
unfoldable pub aanwriter : List ℕ → Client → List Buf × Client
aanwriter bytes c =
    let b = new_buf bytes c in
    let kept = record c { outmsg = u32 (c.outmsg + 1); unacked = c.unacked ++ (b ∷ []) } in
    if c.up
    then (b ∷ [], record kept { pipe_open = if length bytes == 0 then false else c.pipe_open })
    else ([], kept)

-- One round of `aansyncer`.
unfoldable pub aansyncer : Client → List Buf
aansyncer c =
    if c.up then record { nb = 0; msg = sync_msg; acked = c.inmsg; bytes = [] } ∷ [] else []

-- `reconnect`, in the round whose dial and writes succeed.
unfoldable pub reconnect : Client → List Buf × Client
reconnect c =
    let again = map {A = Buf} (λ b. record b { acked = c.inmsg }) c.unacked in
    (again, record c { up = true; unacked = again })

-- The loop over `unackedhead`: `none` is the failed `assert`.
unfoldable pub release : ℕ → ℕ → List Buf → Option (ℕ × List Buf)
release a last [] = some (last, [])
release a last (x ∷ xs) =
    let rest = release a (u32 (last + 1)) xs in
    if x.msg == last
    then (if u32 (last + 1) == a then some (u32 (last + 1), xs) else rest)
    else none

-- `(long)(a - lastacked) > 0`, for a `long` of 32 bits.
unfoldable pub is_ahead : ℕ → ℕ → Bool
is_ahead a last = let d = u32 (a + (2 ^ 32 - last)) in ltb 0 d && ltb d (2 ^ 31)

unfoldable pub acknowledge : ℕ → Client → Option Client
acknowledge a c =
    if is_ahead a c.lastacked
    then (elim (release a c.lastacked c.unacked) [
      | none ↦ none
      | some (last, xs) ↦ some (record c { lastacked = last; unacked = xs })
    ])
    else some c

-- `if(c->pipefd < 0) goto Closed; write(c->pipefd, b->buf, n);`
unfoldable pub give : List ℕ → Client → Client
give bytes c =
    if c.pipe_open then record c { given = c.given ++ (bytes ∷ []) } else record c { closed = true }

-- A data message.
unfoldable pub accept : Buf → Client → Option Client
accept b c =
    if b.msg == c.inmsg
    then (elim (acknowledge b.acked (record c { inmsg = u32 (c.inmsg + 1) })) [
      | none ↦ none
      | some c' ↦ some (give b.bytes c')
    ])
    else some c

-- One round of `aanreader`, for a message that came whole; `none` is the failed `assert`.
unfoldable pub aanreader : Buf → Client → Option Client
aanreader b c =
    if b.nb == 0
    then some (if b.msg == sync_msg then c else record c { closed = true })
    else if leb (2 ^ 31) b.nb || ltb bufsize b.nb
    then some (record c { closed = true })
    else accept b c

-- `aanclient`, before its first `reconnect`.
abbrev pub aanclient : Client
aanclient = record {
  up = false;
  pipe_open = true;
  inmsg = 0;
  outmsg = 0;
  unacked = [];
  lastacked = 0;
  given = [];
  closed = false;
}
