-- ===== src/Ninep/Yields.antt =====
-- What the readers deliver from a buffer of bytes, and how many bytes they take for it.
use drawterm.Prelude.{
  ℕ, zero, suc, ◌+◌, ◌*◌, ◌≤◌, ◌≡◌, ◌≢◌, ◌⊎◌, refl, none, some, List, [], ◌∷◌, length, drop, All,
  length-drop, length-take, has→le, arith, IsByte, IsU16, IsU32, IsU64, Option-cases, inl, inr,
}
use drawterm.Ninep.Wire.{
  Reader, ◌>>=◌, done, need, gbit8, gbit16, gbit32, gbit64, gbytes, c_string, gstring, gqid,
  stringsz,
}
use drawterm.Ninep.Wire.RoundTrip.{FitsString, FitsQid}
use drawterm.Ninep.Fcall.{max_welem}
use drawterm.Ninep.Encode.{names_size}
use drawterm.Ninep.Decode.{get_names, get_qids, at_most_max_welem, at_least_header}

-- `P a k` holds of every value `a` that is read, with `k` bytes taken.
pub record Yields {A : Type 0} (r : Reader A) (P : A → ℕ → Type 0) : Type 0 where
  pub gives :
      (s s' : List ℕ) (a : A)
      → All IsByte s
      → r s ≡ some (a, s')
      → (k : ℕ) × (length s ≡ k + length s') × All IsByte s' × P a k

pub done-Yields : {A : Type 0} {P : A → ℕ → Type 0} (a : A) → P a 0 → Yields (done a) P
done-Yields {A} {P} a p = record { gives = λ s s' b bytes e. go s s' b bytes e }
  where
    go :
        (s s' : List ℕ) (b : A)
        → All IsByte s
        → done a s ≡ some (b, s')
        → (k : ℕ) × (length s ≡ k + length s') × All IsByte s' × P b k
    go s s' b bytes e =
        let x : a ≡ b = cc in let y : s ≡ s' = cc in rw (← x, ← y) (0, omega arith, bytes, p)

pub bind-Yields :
    {A B : Type 0} {m : Reader A} {f : A → Reader B} {P : A → ℕ → Type 0} {Q : B → ℕ → Type 0}
    → Yields m P
    → ((a : A) (n : ℕ) → P a n → Yields (f a) (λ b k. Q b (n + k)))
    → Yields (m >>= f) Q
bind-Yields {A} {B} {m} {f} {P} {Q} l next = record {
  gives = λ s s' b bytes e. go s s' b bytes e (Option-cases (m s));
}
  where
    go :
        (s s' : List ℕ) (b : B)
        → All IsByte s
        → (m >>= f) s ≡ some (b, s')
        → (m s ≡ none) ⊎ ((x : A × List ℕ) × (m s ≡ some x))
        → (k : ℕ) × (length s ≡ k + length s') × All IsByte s' × Q b k
    go s s' b bytes e (inl n) = ground (arith, n)
    go s s' b bytes e (inr ((a, r), p)) =
        let (n, long, rest, held) = l.gives s r a bytes p in
        let (k, long', rest', held') = (next a n held).gives r s' b rest (ground (arith, p)) in
        (n + k, omega arith, rest', held')

pub need-Yields : (n : ℕ) → Yields (need n) (λ _ k. k ≡ 0)
unfolding need
need-Yields n = record { gives = λ s s' a bytes e. (0, ground arith, ground arith, refl) }

pub gbit8-Yields : Yields gbit8 (λ a k. IsByte a × (k ≡ 1))
unfolding gbit8
gbit8-Yields = record { gives = λ s s' a bytes e. (1, ground arith, ground arith, ground arith) }

pub gbit16-Yields : Yields gbit16 (λ a k. IsU16 a × (k ≡ 2))
unfolding gbit16
gbit16-Yields = record { gives = λ s s' a bytes e. (2, ground arith, ground arith, ground arith) }

pub gbit32-Yields : Yields gbit32 (λ a k. IsU32 a × (k ≡ 4))
unfolding gbit32
gbit32-Yields = record { gives = λ s s' a bytes e. (4, ground arith, ground arith, ground arith) }

pub gbit64-Yields : Yields gbit64 (λ a k. IsU64 a × (k ≡ 8))
unfolding gbit64
gbit64-Yields = record { gives = λ s s' a bytes e. (8, ground arith, ground arith, ground arith) }

All-drop {ℓ κ} : {A : Type ℓ} (P : A → Type κ) (n : ℕ) (xs : List A) → All P xs → All P (drop n xs)
All-drop P zero xs h = h
All-drop P (suc n) [] h = h
All-drop P (suc n) (x ∷ xs) h = All-drop P n xs h.1

pub gbytes-Yields : (n : ℕ) → Yields (gbytes n) (λ a k. (length a ≡ n) × (k ≡ n))
unfolding gbytes
gbytes-Yields n = record {
  gives = λ s s' a bytes e. (
    n,
    ground (arith, has→le n s, length-drop n s),
    ground (arith, All-drop IsByte n s bytes),
    (ground (arith, has→le n s, length-take n s), refl),
  );
}

c_string-nonzero : (s : List ℕ) → All (λ c. c ≢ 0) (c_string s)
unfolding c_string
c_string-nonzero [] = tt
c_string-nonzero (c ∷ s) = ground (arith, c_string-nonzero s)

length-c_string : (s : List ℕ) → length (c_string s) ≤ length s
unfolding c_string
length-c_string [] = omega arith
length-c_string (c ∷ s) = ground (arith, length-c_string s)

pub gstring-Yields : Yields gstring (λ a k. FitsString a × (stringsz a ≤ k))
unfolding gstring stringsz
gstring-Yields = bind-Yields (need-Yields 2) λ _ i p. bind-Yields gbit16-Yields λ n j q.
    bind-Yields (gbytes-Yields n) λ b k r.
      done-Yields _
        ((omega (arith, length-c_string b), c_string-nonzero b), omega (arith, length-c_string b))

pub gqid-Yields : Yields gqid (λ a k. FitsQid a × (k ≡ 13))
unfolding gqid
gqid-Yields = bind-Yields (need-Yields 13) λ _ i p. bind-Yields gbit8-Yields λ t j q.
    bind-Yields gbit32-Yields
      λ v k r. bind-Yields gbit64-Yields λ w l u. done-Yields _ (omega arith)

pub get_names-Yields :
    (n : ℕ) → Yields (get_names n) (λ a k. (length a ≡ n) × All FitsString a × (names_size a ≤ k))
unfolding get_names names_size
get_names-Yields zero = done-Yields [] (refl, tt, omega arith)
get_names-Yields (suc n) = bind-Yields gstring-Yields λ s i p.
    bind-Yields (get_names-Yields n) λ ss j q. done-Yields _ (omega arith, (p.0, q.1), omega arith)

pub get_qids-Yields :
    (n : ℕ) → Yields (get_qids n) (λ a k. (length a ≡ n) × All FitsQid a × (k ≡ n * 13))
unfolding get_qids
get_qids-Yields zero = done-Yields [] (refl, tt, omega arith)
get_qids-Yields (suc n) = bind-Yields gqid-Yields λ s i p.
    bind-Yields (get_qids-Yields n) λ ss j q. done-Yields _ (omega arith, (p.0, q.1), omega arith)

pub at_most_max_welem-Yields :
    (n : ℕ) → Yields (at_most_max_welem n) (λ _ k. (n ≤ max_welem) × (k ≡ 0))
unfolding at_most_max_welem
at_most_max_welem-Yields n = record {
  gives = λ s s' a bytes e. (0, ground arith, ground arith, (ground arith, refl));
}

pub at_least_header-Yields : (n : ℕ) → Yields (at_least_header n) (λ _ k. (7 ≤ n) × (k ≡ 0))
unfolding at_least_header
at_least_header-Yields n = record {
  gives = λ s s' a bytes e. (0, ground arith, ground arith, (ground arith, refl));
}
