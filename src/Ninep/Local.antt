-- ===== src/Ninep/Local.antt =====
-- The readers look at no byte behind what they take.
use drawterm.Prelude.{
  ℕ, zero, suc, ◌≤◌, ◌≡◌, refl, Option, none, some, List, [], ◌∷◌, ◌++◌, length, take, drop,
  length-drop, has→le, has-append, arith, Option-cases, inl, inr,
}
use drawterm.Ninep.Wire.{
  Reader, ◌>>=◌, done, need, gbit8, gbit16, gbit32, gbit64, gbytes, gstring, gqid,
}
use drawterm.Ninep.Decode.{
  get_names, get_qids, get_fields, at_most_max_welem, get_message, at_least_header, get_sized,
}
use drawterm.Ninep.Fcall.{Fcall, MsgType, tversion}

-- What is read stays the same when bytes are added behind the buffer, and these are left over.
pub record IsLocal {A : Type 0} (r : Reader A) : Type 0 where
  pub extend :
      (s more s' : List ℕ) (a : A) → r s ≡ some (a, s') → r (s ++ more) ≡ some (a, s' ++ more)
  pub shrink : (s s' : List ℕ) (a : A) → r s ≡ some (a, s') → length s' ≤ length s

done-IsLocal : {A : Type 0} (a : A) → IsLocal (done a)
done-IsLocal a = record { extend = λ s more s' b e. cc; shrink = λ s s' b e. ground arith }

bind-IsLocal :
    {A B : Type 0} {m : Reader A} {f : A → Reader B}
    → IsLocal m
    → ((a : A) → IsLocal (f a))
    → IsLocal (m >>= f)
bind-IsLocal {A} {B} {m} {f} l k = record { extend = extend; shrink = shrink }
  where
    extend :
        (s more s' : List ℕ) (b : B)
        → (m >>= f) s ≡ some (b, s')
        → (m >>= f) (s ++ more) ≡ some (b, s' ++ more)
    extend s more s' b e = elim (Option-cases (m s)) [
      | inl n ↦ ground (arith, n)
      | inr ((a, r), p) ↦ ground (arith, p, l.extend s more r a p, (k a).extend r more s' b)
    ]

    shrink : (s s' : List ℕ) (b : B) → (m >>= f) s ≡ some (b, s') → length s' ≤ length s
    shrink s s' b e = elim (Option-cases (m s)) [
      | inl n ↦ ground (arith, n)
      | inr ((a, r), p) ↦ ground (arith, p, l.shrink s r a p, (k a).shrink r s' b)
    ]

need-IsLocal : (n : ℕ) → IsLocal (need n)
unfolding need
need-IsLocal n = record {
  extend = λ s more s' b e. ground (arith, has→le n s, has-append n s more);
  shrink = λ s s' b e. ground arith;
}

drop-append_of_le {ℓ} :
    {A : Type ℓ} (n : ℕ) (xs ys : List A) → n ≤ length xs → drop n (xs ++ ys) ≡ drop n xs ++ ys
drop-append_of_le zero xs ys h = refl
drop-append_of_le (suc n) [] ys h = absurd (omega arith)
drop-append_of_le (suc n) (x ∷ xs) ys h = drop-append_of_le n xs ys (omega arith)

take-append_of_le {ℓ} :
    {A : Type ℓ} (n : ℕ) (xs ys : List A) → n ≤ length xs → take n (xs ++ ys) ≡ take n xs
take-append_of_le zero xs ys h = refl
take-append_of_le (suc n) [] ys h = absurd (omega arith)
take-append_of_le (suc n) (x ∷ xs) ys h = rw (take-append_of_le n xs ys (omega arith))

gbytes-IsLocal : (n : ℕ) → IsLocal (gbytes n)
unfolding gbytes
gbytes-IsLocal n = record {
  extend = λ s more s' b e. ground (
    arith,
    has→le n s,
    has-append n s more,
    take-append_of_le n s more,
    drop-append_of_le n s more,
  );
  shrink = λ s s' b e. ground (arith, length-drop n s);
}

gbit8-IsLocal : IsLocal gbit8
unfolding gbit8
gbit8-IsLocal = record { extend = λ s more s' a e. ground arith; shrink = λ s s' a e. ground arith }

gbit16-IsLocal : IsLocal gbit16
unfolding gbit16
gbit16-IsLocal = record {
  extend = λ s more s' a e. ground arith;
  shrink = λ s s' a e. ground arith;
}

gbit32-IsLocal : IsLocal gbit32
unfolding gbit32
gbit32-IsLocal = record {
  extend = λ s more s' a e. ground arith;
  shrink = λ s s' a e. ground arith;
}

gbit64-IsLocal : IsLocal gbit64
unfolding gbit64
gbit64-IsLocal = record {
  extend = λ s more s' a e. ground arith;
  shrink = λ s s' a e. ground arith;
}

ruleset primitives = (
  bind-IsLocal, done-IsLocal, need-IsLocal, gbytes-IsLocal, gbit8-IsLocal, gbit16-IsLocal,
  gbit32-IsLocal, gbit64-IsLocal,
)

gstring-IsLocal : IsLocal gstring
unfolding gstring
gstring-IsLocal =
    bind-IsLocal (need-IsLocal 2)
      λ _. bind-IsLocal gbit16-IsLocal λ n. bind-IsLocal (gbytes-IsLocal n) λ b. done-IsLocal _

gqid-IsLocal : IsLocal gqid
unfolding gqid
gqid-IsLocal = search primitives depth 12

get_names-IsLocal : (n : ℕ) → IsLocal (get_names n)
unfolding get_names
get_names-IsLocal zero = done-IsLocal []
get_names-IsLocal (suc n) =
    bind-IsLocal gstring-IsLocal λ s. bind-IsLocal (get_names-IsLocal n) λ ss. done-IsLocal _

get_qids-IsLocal : (n : ℕ) → IsLocal (get_qids n)
unfolding get_qids
get_qids-IsLocal zero = done-IsLocal []
get_qids-IsLocal (suc n) =
    bind-IsLocal gqid-IsLocal λ s. bind-IsLocal (get_qids-IsLocal n) λ ss. done-IsLocal _

at_most_max_welem-IsLocal : (n : ℕ) → IsLocal (at_most_max_welem n)
unfolding at_most_max_welem
at_most_max_welem-IsLocal n = record {
  extend = λ s more s' b e. ground arith;
  shrink = λ s s' b e. ground arith;
}

ruleset readers = (
  primitives, gstring-IsLocal, gqid-IsLocal, get_names-IsLocal, get_qids-IsLocal,
  at_most_max_welem-IsLocal,
)

pub get_fields-IsLocal : (t : MsgType) (f : Fcall) → IsLocal (get_fields t f)
unfolding get_fields
get_fields-IsLocal tversion f = search readers depth 20
get_fields-IsLocal _ f = search readers depth 20

get_message-IsLocal : (t : Option MsgType) (f : Fcall) → IsLocal (get_message t f)
unfolding get_message
get_message-IsLocal none f = record { extend = λ s more s' b e. cc; shrink = λ s s' b e. cc }
get_message-IsLocal (some t) f = get_fields-IsLocal t f

at_least_header-IsLocal : (n : ℕ) → IsLocal (at_least_header n)
unfolding at_least_header
at_least_header-IsLocal n = record {
  extend = λ s more s' b e. ground arith;
  shrink = λ s s' b e. ground arith;
}

pub get_sized-IsLocal : (f : Fcall) → IsLocal (get_sized f)
unfolding get_sized
get_sized-IsLocal f = search (readers, get_message-IsLocal, at_least_header-IsLocal) depth 20
