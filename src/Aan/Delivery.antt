-- ===== src/Aan/Delivery.antt =====
-- Two clients whose connection is made anew bring each other all that was written.
use drawterm.Prelude.{
  ◌≤◌, ◌≡◌, refl, sym, subst, ap, ◌∙◌, true, false, List, [], ◌∷◌, length, length-drop, All,
  take-eq_self, arith,
}
use drawterm.Aan.{Buf, Client, reconnect}
use drawterm.Aan.Flow.{Data}
use drawterm.Aan.Way.{IsFull, Way}
use drawterm.Aan.Reads.{Outcome-open}
use drawterm.Aan.System.{System, mirror, reads, redials, Step, at_near, at_far, breaks, Reach}
use drawterm.Aan.Safety.{Holds, mirror-Holds, Step-Holds, read-Holds, Reach-Holds}

pub data Runs (s : System) : System → Type 0 where
  rests : Runs s s
  goes : {t u : System} → Runs s t → Step t u → Runs s u

Runs-trans : {s t u : System} → Runs s t → Runs t u → Runs s u
Runs-trans r rests = r
Runs-trans r (goes q st) = goes (Runs-trans r q) st

mirror-Step : {s t : System} → Step s t → Step (mirror s) (mirror t)
mirror-Step (at_near m) = at_far m
mirror-Step (at_far m) = at_near m
mirror-Step breaks = breaks

mirror-Runs : {s t : System} → Runs s t → Runs (mirror s) (mirror t)
mirror-Runs rests = rests
mirror-Runs (goes r st) = goes (mirror-Runs r) (mirror-Step st)

Runs-Holds : {s t : System} → Runs s t → Holds s → Holds t
Runs-Holds rests h = h
Runs-Holds (goes r st) h = Step-Holds st (Runs-Holds r h)

-- The near client has read all that was on its way, and nothing else has changed.
record Drained (s t : System) : Type 0 where
  steps : Runs s t
  far : t.far ≡ s.far
  out : t.out ≡ s.out
  back : t.back ≡ []
  said : t.said ≡ s.said
  heard : t.heard ≡ s.heard
  up : t.near.up ≡ s.near.up
  all : t.near.given ≡ s.heard

whole_given :
    (s r : Client) (back : List Buf) (log : Data)
    → Way s r [] back log
    → s.up ≡ true
    → r.closed ≡ false
    → All IsFull log
    → r.given ≡ log
whole_given s r back log w u c full =
    w.prefix ∙ take-eq_self (length r.given) log (omega (arith, whole, w.order full, w.open_all c))
  where
    whole : length log ≤ w.first
    whole = omega (arith, ap length (w.flows u), length-drop w.first log)

drain :
    (bs : List Buf) (s : System)
    → Holds s
    → s.back ≡ bs
    → s.near.up ≡ true
    → s.far.up ≡ true
    → s.near.closed ≡ false
    → s.near.pipe_open ≡ true
    → All IsFull s.heard
    → (t : System) × Drained s t
drain [] s h e u v c p full = (
  s,
  record {
    steps = rests;
    far = refl;
    out = refl;
    back = e;
    said = refl;
    heard = refl;
    up = refl;
    all =
        whole_given s.far s.near s.out s.heard
          (subst (λ z. Way s.far s.near z s.out s.heard) e h.back_again) v c full;
  },
)
drain (b ∷ bs) s h e u v c p full =
    let (d, x, f, o, k) = read-Holds s b bs h c e in
    let (c', p', u') =
      Outcome-open s.far s.near b bs s.out s.heard
        (subst (λ z. Way s.far s.near z s.out s.heard) e h.back_again) x s.said d full c p o in
    let (t, r) = drain bs (record s { near = d; back = bs }) k refl (u' ∙ u) v c' p' full in
    (
      t,
      record {
        steps = Runs-trans (goes rests (at_near (reads b bs d u c e f))) r.steps;
        far = r.far;
        out = r.out;
        back = r.back;
        said = r.said;
        heard = r.heard;
        up = r.up ∙ u';
        all = r.all;
      },
    )

-- Both clients dial again after a break.
abbrev remade : System → System
remade s = record {
  near = (reconnect (record s.near { up = false })).1;
  far = (reconnect (record s.far { up = false })).1;
  out = (reconnect (record s.near { up = false })).0;
  back = (reconnect (record s.far { up = false })).0;
  said = s.said;
  heard = s.heard;
}

remade-Runs : (s : System) → s.near.closed ≡ false → s.far.closed ≡ false → Runs s (remade s)
remade-Runs s c d =
    goes (goes (goes rests breaks) (at_near (redials refl c))) (at_far (redials refl d))

-- From every reachable state in which neither reader has left its loop, both pipes are open and no
-- data written is empty or larger than `Bufsize`, a run of the clients (their connection breaks,
-- both dial again and both read what is sent) leads to a state in which each has given its
-- program all that the other's wrote, in order and once.
pub aan-recovers :
    {s : System}
    → Reach s
    → s.near.closed ≡ false
    → s.far.closed ≡ false
    → s.near.pipe_open ≡ true
    → s.far.pipe_open ≡ true
    → All IsFull s.said
    → All IsFull s.heard
    → (t : System) × Runs s t
      × (t.far.given ≡ s.said)
      × (t.near.given ≡ s.heard)
      × (t.out ≡ [])
      × (t.back ≡ [])
unfolding reconnect
aan-recovers {s} r nc fc np fp fs fh =
    let h : Holds (remade s) = Runs-Holds (remade-Runs s nc fc) (Reach-Holds r) in
    let (t, d) = drain (remade s).back (remade s) h refl refl refl nc np fh in
    let k : Holds (mirror t) = mirror-Holds (Runs-Holds d.steps h) in
    let (t', d') =
      drain t.out (mirror t) k refl (ap (λ c. c.up) d.far) d.up (ap (λ c. c.closed) d.far ∙ fc)
        (ap (λ c. c.pipe_open) d.far ∙ fp) (subst (All IsFull) (sym d.said) fs) in
    (
      mirror t',
      Runs-trans (Runs-trans (remade-Runs s nc fc) d.steps) (mirror-Runs d'.steps),
      d'.all ∙ d.said,
      ap (λ c. c.given) d'.far ∙ d.all,
      d'.back,
      d'.out ∙ d.back,
    )
