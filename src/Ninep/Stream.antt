-- ===== src/Ninep/Stream.antt =====
-- libc/read9pmsg.c: one message off a connection that delivers its bytes in pieces.
pub mod Delivery
use drawterm.Prelude.{
  ℕ, zero, suc, ◌+◌, ◌-◌, ◌^◌, Bool, true, false, ◌||◌, Option, none, some, List, [], ◌∷◌, ◌++◌,
  length, ltb, leb, ◌==◌, if◌then◌else◌,
}
use drawterm.Ninep.Wire.{gbit32}

-- What a reading call returns: -1 is `none`, and else the bytes that it put into the buffer.
abbrev pub Bytes : Type 0
Bytes = Option (List ℕ)

-- `if(t == 0) return m; break;`, at an `m` that is not positive.
unfoldable pub stop : Bytes → List ℕ → Bytes
stop m [] = m
stop m (a ∷ t) = some (a ∷ t)

-- GBIT32 of the four bytes that were read.
unfoldable pub head_size : List ℕ → ℕ
head_size head = elim (gbit32 head) [ none ↦ 0 | some (n, s) ↦ n ]

-- A length from 2 ^ 31 on is a negative `int`.
unfoldable pub bad_length : ℕ → ℕ → Bool
bad_length n len = leb (2 ^ 31) len || leb len 4 || ltb n len

-- `read` is the system call, on a file in a state of type `S`.
module _ {S : Type 0} (read : ℕ → S → Bytes × S) where
  -- The loop of `readn`, with `n` bytes to go and `t` read. Each round reads a byte at least.
  unfoldable pub readn_loop : ℕ → ℕ → List ℕ → S → Bytes × S
  readn_loop zero n t s = (some t, s)
  readn_loop (suc fuel) zero t s = (some t, s)
  readn_loop (suc fuel) (suc n) t s =
      let (m, s') = read (suc n) s in
      elim m [
        | none ↦ (stop none t, s')
        | some bytes ↦ elim bytes [
          | [] ↦ (stop (some []) t, s')
          | b ∷ bs ↦ readn_loop fuel (suc n - length (b ∷ bs)) (t ++ (b ∷ bs)) s'
        ]
      ]

  unfoldable pub readn : ℕ → S → Bytes × S
  readn n s = readn_loop n n [] s

  -- The rest of the message; the number that is returned counts the bytes of the answer, so that
  -- `some []` is 0.
  unfoldable pub read_body : List ℕ → S → Bytes × S
  read_body head s =
      let k = head_size head - 4 in
      let (m, s') = readn k s in
      elim m [
        | none ↦ (some [], s')
        | some bytes ↦ (if ltb (length bytes) k then some [] else some (head ++ bytes), s')
      ]

  unfoldable pub read9pmsg : ℕ → S → Bytes × S
  read9pmsg n s =
      let (m, s') = readn 4 s in
      elim m [
        | none ↦ (none, s')
        | some head ↦
            if length head == 4
            then (if bad_length n (head_size head) then (none, s') else read_body head s')
            else (some [], s')
      ]
