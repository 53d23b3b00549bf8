-- ===== src/Ninep/Wire/RoundTrip.antt =====
-- Numbers, strings and qids are read back as they were written, whatever follows them.
use drawterm.Prelude.{
  ℕ, ◌+◌, ◌*◌, ◌/◌, ◌%◌, ◌^◌, ◌≤◌, ◌<◌, ◌≡◌, refl, ◌≢◌, none, some, List, [], ◌∷◌, ◌++◌, length,
  take, drop, All, take-eq_self, take-append, drop-append, has-append, le→has, lt→has, append_assoc,
  arith, IsByte, IsU16, IsU32, IsU64, u32,
}
use drawterm.Ninep.Wire.{
  CString, Qid, Reader, ◌>>=◌, pbit16, join16, join32, need, gbit16, gbytes, c_string, gstring,
  gqid, pstring, stringsz, pqid,
}

pub join16-digits : (v : ℕ) → IsU16 v → join16 (v % 256) (v / 2 ^ 8 % 256) ≡ v
join16-digits v h = omega arith

pub join32-digits :
    (v : ℕ) → IsU32 v → join32 (v % 256) (v / 2 ^ 8 % 256) (v / 2 ^ 16 % 256) (v / 2 ^ 24 % 256) ≡ v
join32-digits v h = omega arith

pub join64-digits :
    (v : ℕ)
    → IsU64 v
    → join32 (v % 256) (v / 2 ^ 8 % 256) (v / 2 ^ 16 % 256) (v / 2 ^ 24 % 256)
        + join32 (v / 2 ^ 32 % 256) (v / 2 ^ 40 % 256) (v / 2 ^ 48 % 256) (v / 2 ^ 56 % 256)
          * 2 ^ 32
      ≡ v
join64-digits v h = omega arith

-- One step of a reader.
pub >>=_step :
    {A B : Type 0} (m : Reader A) (f : A → Reader B) (s s' : List ℕ) (a : A)
    → m s ≡ some (a, s')
    → (m >>= f) s ≡ f a s'
>>=_step m f s s' a e = rw (e, ◌>>=◌)

-- What a C string can hold and a 16-bit count can say.
abbrev pub FitsString : CString → Type 0
FitsString none = Unit {0}
FitsString (some s) = IsU16 (length s) × All (λ c. c ≢ 0) s

abbrev pub FitsQid : Qid → Type 0
FitsQid q = IsByte q.type × IsU32 q.vers × IsU64 q.path

-- A nil pointer comes back as the empty string.
abbrev pub read_back : CString → CString
read_back none = some []
read_back (some s) = some s

pub c_string-eq_self : (s : List ℕ) → All (λ c. c ≢ 0) s → c_string s ≡ s
unfolding c_string
c_string-eq_self [] h = refl
c_string-eq_self (c ∷ s) h = ground (arith, c_string-eq_self s h.1)

pub gbytes-append :
    (n : ℕ) (xs rest : List ℕ) → n ≡ length xs → gbytes n (xs ++ rest) ≡ some (xs, rest)
unfolding gbytes
gbytes-append n xs rest h =
    rw (has-append n xs rest (omega arith), take-append n xs rest h, drop-append n xs rest h)

pub gbytes-le : (n : ℕ) (s : List ℕ) → n ≤ length s → gbytes n s ≡ some (take n s, drop n s)
unfolding gbytes
gbytes-le n s h = rw (le→has n s h)

pub gbytes_short : (n : ℕ) (s : List ℕ) → length s < n → gbytes n s ≡ none
unfolding gbytes
gbytes_short n s h = rw (lt→has n s h)

pub need-le : (n : ℕ) (s : List ℕ) → n ≤ length s → need n s ≡ some (tt, s)
unfolding need
need-le n s h = rw (le→has n s h)

pub need_short : (n : ℕ) (s : List ℕ) → length s < n → need n s ≡ none
unfolding need
need_short n s h = rw (lt→has n s h)

pub gbit16-pbit16 : (v : ℕ) (rest : List ℕ) → IsU16 v → gbit16 (pbit16 v ++ rest) ≡ some (v, rest)
unfolding gbit16 pbit16
gbit16-pbit16 v rest h = rw (join16-digits v h)

gstring-bytes :
    (s rest : List ℕ)
    → IsU16 (length s)
    → All (λ c. c ≢ 0) s
    → gstring (pbit16 (length s) ++ (s ++ rest)) ≡ some (some s, rest)
unfolding gstring pbit16
gstring-bytes s rest h nz =
    ground (
      arith,
      join16-digits (length s) h,
      gbytes-append (length s) s rest refl,
      c_string-eq_self s nz,
    )

pstring-some : (s : List ℕ) → IsU16 (length s) → pstring (some s) ≡ pbit16 (length s) ++ s
unfolding pstring
pstring-some s h =
    let e : u32 (length s) ≡ length s = omega arith in
    rw (e, take-eq_self (length s) s (omega arith))

pub gstring-pstring :
    (s : CString) (rest : List ℕ)
    → FitsString s
    → gstring (pstring s ++ rest) ≡ some (read_back s, rest)
gstring-pstring none rest h = unfold gstring pstring in refl
gstring-pstring (some s) rest h =
    rw (pstring-some s h.0, append_assoc) (gstring-bytes s rest h.0 h.1)

pub gqid-pqid : (q : Qid) (rest : List ℕ) → FitsQid q → gqid (pqid q ++ rest) ≡ some (q, rest)
unfolding gqid pqid
gqid-pqid q rest h = ground (arith, join32-digits q.vers h.1, join64-digits q.path h.2)

pub length-pstring : (s : CString) → FitsString s → length (pstring s) ≡ stringsz s
length-pstring none h = unfold pstring stringsz in refl
length-pstring (some s) h = rw (pstring-some s h.0) (unfold pbit16 stringsz in omega arith)
