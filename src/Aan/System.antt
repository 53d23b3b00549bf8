-- ===== src/Aan/System.antt =====
-- Two clients and the network between them: the steps of their processes, in any order, with
-- network connections that break and are dialled again.
use drawterm.Prelude.{ℕ, ◌+◌, ◌^◌, ◌<◌, ◌≤◌, ◌≡◌, true, false, some, List, [], ◌∷◌, ◌++◌, length}
use drawterm.Aan.{bufsize, Buf, Client, aanwriter, aansyncer, reconnect, aanreader, aanclient}
use drawterm.Aan.Flow.{Data}

-- `out` is on its way to the far client and `back` to the near one; `said` is what the near
-- program has written to its pipe, and `heard` what the far one has.
pub record System : Type 0 where
  pub near : Client
  pub far : Client
  pub out : List Buf
  pub back : List Buf
  pub said : Data
  pub heard : Data

abbrev pub mirror : System → System
mirror s = record {
  near = s.far;
  far = s.near;
  out = s.back;
  back = s.out;
  said = s.heard;
  heard = s.said;
}

-- What the near client's processes do. The kept messages are in memory, so they are fewer than
-- half of the numbers.
pub data Move (s : System) : System → Type 0 where
  writes :
      (bytes : List ℕ)
      → length bytes ≤ bufsize
      → s.near.pipe_open ≡ true
      → length s.near.unacked + 1 < 2 ^ 31
      → Move s (record s {
        near = (aanwriter bytes s.near).1;
        out = s.out ++ (aanwriter bytes s.near).0;
        said = s.said ++ (bytes ∷ []);
      })
  syncs : Move s (record s { out = s.out ++ aansyncer s.near })
  reads :
      (b : Buf) (bs : List Buf) (c : Client)
      → s.near.up ≡ true
      → s.near.closed ≡ false
      → s.back ≡ b ∷ bs
      → aanreader b s.near ≡ some c
      → Move s (record s { near = c; back = bs })
  redials :
      s.near.up ≡ false
      → s.near.closed ≡ false
      → Move s (record s { near = (reconnect s.near).1; out = (reconnect s.near).0 })

-- A network connection that breaks loses what is on its way.
abbrev pub broken : System → System
broken s = record s {
  near = record s.near { up = false };
  far = record s.far { up = false };
  out = [];
  back = [];
}

pub data Step (s : System) : System → Type 0 where
  at_near : {t : System} → Move s t → Step s t
  at_far : {t : System} → Move (mirror s) t → Step s (mirror t)
  breaks : Step s (broken s)

abbrev pub start : System
start = record { near = aanclient; far = aanclient; out = []; back = []; said = []; heard = [] }

pub data Reach : System → Type 0 where
  here : Reach start
  next : {s t : System} → Reach s → Step s t → Reach t
