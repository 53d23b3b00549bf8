-- ===== src/Aan/Flow.antt =====
-- aan.c: what is true of the messages of one direction of the traffic between two clients.
use drawterm.Prelude.{
  ℕ, suc, ◌+◌, ◌≤◌, ◌≡◌, ◌⊎◌, inl, inr, refl, subst, List, [], ◌∷◌, ◌++◌, map, length, All, u32,
  arith,
}
use drawterm.Aan.{sync_msg, Buf}

abbrev pub Data : Type 0
Data = List (List ℕ)

-- A message with the number and the bytes.
pub record Carried (i : ℕ) (d : List ℕ) (b : Buf) : Type 0 where
  pub number : b.msg ≡ u32 i
  pub size : b.nb ≡ length d
  pub content : b.bytes ≡ d

-- Messages with the numbers from `i` on.
abbrev pub Numbered : ℕ → List Buf → Data → Type 0
Numbered i [] ds = ds ≡ []
Numbered i (b ∷ bs) [] = ⊥
Numbered i (b ∷ bs) (d ∷ ds) = Carried i d b × Numbered (suc i) bs ds

abbrev pub IsSync : Buf → Type 0
IsSync b = (b.nb ≡ 0) × (b.msg ≡ sync_msg)

-- What is on its way: the messages from `i` on, in order and all, and acknowledgements between.
abbrev pub Flows : ℕ → List Buf → Data → Type 0
Flows i [] ds = ds ≡ []
Flows i (b ∷ bs) [] = IsSync b × Flows i bs []
Flows i (b ∷ bs) (d ∷ ds) = (IsSync b × Flows i bs (d ∷ ds)) ⊎ (Carried i d b × Flows (suc i) bs ds)

-- The acknowledgements on their way go from `low` up to `high`, and never back.
abbrev pub Acks : ℕ → List Buf → ℕ → Type 0
Acks low [] high = low ≤ high
Acks low (b ∷ bs) high = (x : ℕ) × (low ≤ x) × (b.acked ≡ u32 x) × Acks x bs high

pub Numbered-append :
    (i : ℕ) (bs : List Buf) (ds : Data) (b : Buf) (d : List ℕ)
    → Numbered i bs ds
    → Carried (i + length ds) d b
    → Numbered i (bs ++ (b ∷ [])) (ds ++ (d ∷ []))
Numbered-append i [] [] b d n c = (subst (λ j. Carried j d b) (omega arith) c, refl)
Numbered-append i [] (e ∷ ds) b d n c = absurd (cc)
Numbered-append i (a ∷ bs) [] b d n c = absurd n
Numbered-append i (a ∷ bs) (e ∷ ds) b d (n, ns) c =
    (n, Numbered-append (suc i) bs ds b d ns (subst (λ j. Carried j d b) (omega arith) c))

pub Numbered-length : (i : ℕ) (bs : List Buf) (ds : Data) → Numbered i bs ds → length bs ≡ length ds
Numbered-length i [] [] n = refl
Numbered-length i [] (d ∷ ds) n = absurd (cc)
Numbered-length i (b ∷ bs) [] n = absurd n
Numbered-length i (b ∷ bs) (d ∷ ds) (n, ns) = omega (arith, Numbered-length (suc i) bs ds ns)

-- A message sent again carries a new acknowledgement.
pub Numbered-map :
    (a i : ℕ) (bs : List Buf) (ds : Data)
    → Numbered i bs ds
    → Numbered i (map {A = Buf} (λ b. record b { acked = a }) bs) ds
Numbered-map a i [] ds n = n
Numbered-map a i (b ∷ bs) [] n = absurd n
Numbered-map a i (b ∷ bs) (d ∷ ds) (n, ns) = (
  record { number = n.number; size = n.size; content = n.content },
  Numbered-map a (suc i) bs ds ns,
)

pub Numbered→Flows : (i : ℕ) (bs : List Buf) (ds : Data) → Numbered i bs ds → Flows i bs ds
Numbered→Flows i [] ds n = n
Numbered→Flows i (b ∷ bs) [] n = absurd n
Numbered→Flows i (b ∷ bs) (d ∷ ds) (n, ns) = inr (n, Numbered→Flows (suc i) bs ds ns)

pub Flows-append :
    (i : ℕ) (bs : List Buf) (ds : Data) (b : Buf) (d : List ℕ)
    → Flows i bs ds
    → Carried (i + length ds) d b
    → Flows i (bs ++ (b ∷ [])) (ds ++ (d ∷ []))
Flows-append i [] [] b d f c = inr (subst (λ j. Carried j d b) (omega arith) c, refl)
Flows-append i [] (e ∷ ds) b d f c = absurd (cc)
Flows-append i (a ∷ bs) [] b d (s, f) c = inl (s, Flows-append i bs [] b d f c)
Flows-append i (a ∷ bs) (e ∷ ds) b d (inl (s, f)) c = inl (s, Flows-append i bs (e ∷ ds) b d f c)
Flows-append i (a ∷ bs) (e ∷ ds) b d (inr (n, f)) c =
    inr (n, Flows-append (suc i) bs ds b d f (subst (λ j. Carried j d b) (omega arith) c))

pub Flows-sync :
    (i : ℕ) (bs : List Buf) (ds : Data) (b : Buf)
    → Flows i bs ds
    → IsSync b
    → Flows i (bs ++ (b ∷ [])) ds
Flows-sync i [] [] b f s = (s, refl)
Flows-sync i [] (e ∷ ds) b f s = absurd (cc)
Flows-sync i (a ∷ bs) [] b (t, f) s = (t, Flows-sync i bs [] b f s)
Flows-sync i (a ∷ bs) (e ∷ ds) b (inl (t, f)) s = inl (t, Flows-sync i bs (e ∷ ds) b f s)
Flows-sync i (a ∷ bs) (e ∷ ds) b (inr (n, f)) s = inr (n, Flows-sync (suc i) bs ds b f s)

pub Acks-le : (low : ℕ) (bs : List Buf) (high : ℕ) → Acks low bs high → low ≤ high
Acks-le low [] high h = h
Acks-le low (b ∷ bs) high (x, l, e, h) = omega (arith, Acks-le x bs high h)

pub Acks-below :
    (low less : ℕ) (bs : List Buf) (high : ℕ) → less ≤ low → Acks low bs high → Acks less bs high
Acks-below low less [] high l h = omega arith
Acks-below low less (b ∷ bs) high l (x, m, e, h) = (x, omega arith, e, h)

pub Acks-append :
    (low : ℕ) (bs cs : List Buf) (high : ℕ)
    → Acks low bs high
    → All (λ b. b.acked ≡ u32 high) cs
    → Acks low (bs ++ cs) high
Acks-append low [] [] high h u = h
Acks-append low [] (c ∷ cs) high h (e, u) =
    (high, h, e, Acks-append high [] cs high (omega arith) u)
Acks-append low (b ∷ bs) cs high (x, l, e, h) u = (x, l, e, Acks-append x bs cs high h u)

pub Acks-raise :
    (low : ℕ) (bs : List Buf) (high more : ℕ) → high ≤ more → Acks low bs high → Acks low bs more
Acks-raise low [] high more l h = omega arith
Acks-raise low (b ∷ bs) high more l (x, m, e, h) = (x, m, e, Acks-raise x bs high more l h)

pub All-acked :
    (a : ℕ) (bs : List Buf)
    → All {A = Buf} (λ b. b.acked ≡ a) (map {A = Buf} (λ b. record b { acked = a }) bs)
All-acked a [] = tt
All-acked a (b ∷ bs) = (refl, All-acked a bs)
