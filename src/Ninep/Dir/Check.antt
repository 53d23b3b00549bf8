-- ===== src/Ninep/Dir/Check.antt =====
-- `statcheck` accepts what `convM2D` decodes to the last byte, and nothing else.
use drawterm.Prelude.{
  ℕ, zero, suc, ◌+◌, ◌-◌, ◌≤◌, ◌<◌, ◌≡◌, ◌↔◌, inl, inr, refl, Bool, true, false, none, some, List,
  [], ◌∷◌, length, length-drop, drop, take, arith, IsU16, ap, Option-cases, append-nil,
}
use drawterm.Ninep.Wire.{Reader, ◌>>=◌, done, gbit8, gbit16, gbit32, gbit64, c_string}
use drawterm.Ninep.Wire.RoundTrip.{join16-digits, need-le, need_short, gbytes-le, gbytes_short}
use native.Mathlib.Decide.{dec_lt}
use drawterm.Ninep.Dir.{
  Dir, stat_fix_len, size_d2m, put_fixed, get_string, get_fixed, get_strings, set_names, get_dir,
  taken, conv_d2m, conv_m2d, gbit16_at, check_strings, statcheck,
}
use drawterm.Ninep.Dir.Encode.{dir_bytes, length-dir_bytes, conv_d2m_cases}
use drawterm.Ninep.Dir.Decode.{FitsDir, restored, conv_m2d-conv_d2m}

drop-nil {ℓ} : (A : Type ℓ) (n : ℕ) → drop {A = A} n [] ≡ []
drop-nil A zero = refl
drop-nil A (suc n) = refl

drop-drop {ℓ} : {A : Type ℓ} (i j : ℕ) (xs : List A) → drop j (drop i xs) ≡ drop (i + j) xs
drop-drop zero j xs = ap (λ n. drop n xs) (omega arith)
drop-drop {A} (suc i) j [] = rw (drop-nil A j, drop-nil A (suc i + j))
drop-drop (suc i) j (x ∷ xs) =
    let e : suc i + j ≡ suc (i + j) = omega arith in rw e (drop-drop i j xs)

drop_end {ℓ} : {A : Type ℓ} (n : ℕ) (xs : List A) → n ≤ length xs → drop n xs ≡ [] → n ≡ length xs
drop_end n xs h e = omega (arith, ap length e, length-drop n xs)

drop_all {ℓ} : {A : Type ℓ} (xs : List A) → drop (length xs) xs ≡ []
drop_all [] = refl
drop_all (x ∷ xs) = drop_all xs

-- A reader that takes `k` bytes of any buffer that has them.
record Takes {A : Type 0} (r : Reader A) (k : ℕ) : Type 0 where
  takes : (s : List ℕ) → k ≤ length s → (a : A) × (r s ≡ some (a, drop k s))

done-Takes : {A : Type 0} (a : A) → Takes (done a) 0
done-Takes a = record { takes = λ s h. (a, refl) }

bind-Takes :
    {A B : Type 0} {m : Reader A} {f : A → Reader B} (i j : ℕ)
    → Takes m i
    → ((a : A) → Takes (f a) j)
    → Takes (m >>= f) (i + j)
bind-Takes {A} {B} {m} {f} i j l k = record { takes = go }
  where
    go : (s : List ℕ) → i + j ≤ length s → (b : B) × ((m >>= f) s ≡ some (b, drop (i + j) s))
    go s h =
        let (a, p) = l.takes s (omega arith) in
        let (b, q) = (k a).takes (drop i s) (omega (arith, length-drop i s)) in
        (b, ground (arith, p, q, drop-drop i j s))

gbit8_takes : (s : List ℕ) → 1 ≤ length s → (a : ℕ) × (gbit8 s ≡ some (a, drop 1 s))
unfolding gbit8
gbit8_takes (a ∷ s) h = (_, refl)
gbit8_takes _ h = absurd (omega arith)

gbit16_takes : (s : List ℕ) → 2 ≤ length s → (a : ℕ) × (gbit16 s ≡ some (a, drop 2 s))
unfolding gbit16
gbit16_takes (a ∷ b ∷ s) h = (_, refl)
gbit16_takes _ h = absurd (omega arith)

gbit32_takes : (s : List ℕ) → 4 ≤ length s → (a : ℕ) × (gbit32 s ≡ some (a, drop 4 s))
unfolding gbit32
gbit32_takes (a ∷ b ∷ c ∷ d ∷ s) h = (_, refl)
gbit32_takes _ h = absurd (omega arith)

gbit64_takes : (s : List ℕ) → 8 ≤ length s → (a : ℕ) × (gbit64 s ≡ some (a, drop 8 s))
unfolding gbit64
gbit64_takes (a ∷ b ∷ c ∷ d ∷ e ∷ f ∷ g ∷ i ∷ s) h = (_, refl)
gbit64_takes _ h = absurd (omega arith)

get_fixed-Takes : Takes get_fixed 41
unfolding get_fixed
get_fixed-Takes =
    bind-Takes 2 39 (record { takes = gbit16_takes })
      λ _.
        bind-Takes 2 37 (record { takes = gbit16_takes })
          λ _.
            bind-Takes 4 33 (record { takes = gbit32_takes })
              λ _.
                bind-Takes 1 32 (record { takes = gbit8_takes })
                  λ _.
                    bind-Takes 4 28 (record { takes = gbit32_takes })
                      λ _.
                        bind-Takes 8 20 (record { takes = gbit64_takes })
                          λ _.
                            bind-Takes 4 16 (record { takes = gbit32_takes })
                              λ _.
                                bind-Takes 4 12 (record { takes = gbit32_takes })
                                  λ _.
                                    bind-Takes 4 8 (record { takes = gbit32_takes })
                                      λ _.
                                        bind-Takes 8 0 (record { takes = gbit64_takes })
                                          λ _. done-Takes _

-- Once a string has led out of the buffer, `statcheck` fails.
check_strings_outside :
    (n pos : ℕ) (buf : List ℕ) → length buf < pos → check_strings n pos buf ≡ false
unfolding check_strings
check_strings_outside zero pos buf h = ground arith
check_strings_outside (suc n) pos buf h = ground arith

-- From an offset inside the buffer, `statcheck` accepts `n` strings if the loop of `convM2D` reads
-- them up to the last byte.
record Agrees (n pos : ℕ) (buf : List ℕ) : Type 0 where
  accepted :
      check_strings n pos buf ≡ true
      → (ss : List (List ℕ)) × (get_strings n (drop pos buf) ≡ some (ss, []))
  read :
      (ss : List (List ℕ))
      → get_strings n (drop pos buf) ≡ some (ss, [])
      → check_strings n pos buf ≡ true

-- Where the string at an offset ends, if it ends in the buffer.
abbrev next : List ℕ → ℕ → ℕ
next buf pos = pos + (2 + gbit16_at buf pos)

gbit16-drop :
    (buf : List ℕ) (pos : ℕ)
    → pos + 2 ≤ length buf
    → gbit16 (drop pos buf) ≡ some (gbit16_at buf pos, drop (pos + 2) buf)
unfolding gbit16_at
gbit16-drop buf pos h =
    let (m, e) = gbit16_takes (drop pos buf) (omega (arith, length-drop pos buf)) in
    ground (arith, e, drop-drop pos 2 buf)

get_string_inside :
    (buf : List ℕ) (pos : ℕ)
    → next buf pos ≤ length buf
    → (s : List ℕ) × (get_string (drop pos buf) ≡ some (s, drop (next buf pos) buf))
unfolding get_string
get_string_inside buf pos h =
    let m = gbit16_at buf pos in
    (
      c_string (take m (drop (pos + 2) buf)),
      ground (
        arith,
        need-le 2 (drop pos buf) (omega (arith, length-drop pos buf)),
        gbit16-drop buf pos (omega arith),
        gbytes-le m (drop (pos + 2) buf) (omega (arith, length-drop (pos + 2) buf)),
        drop-drop (pos + 2) m buf,
      ),
    )

get_string_cut :
    (buf : List ℕ) (pos : ℕ)
    → pos ≤ length buf
    → length buf < pos + 2
    → get_string (drop pos buf) ≡ none
unfolding get_string
get_string_cut buf pos h out =
    ground (arith, need_short 2 (drop pos buf) (omega (arith, length-drop pos buf)))

get_string_outside :
    (buf : List ℕ) (pos : ℕ)
    → pos + 2 ≤ length buf
    → length buf < next buf pos
    → get_string (drop pos buf) ≡ none
unfolding get_string
get_string_outside buf pos h out =
    let m = gbit16_at buf pos in
    ground (
      arith,
      need-le 2 (drop pos buf) (omega (arith, length-drop pos buf)),
      gbit16-drop buf pos h,
      gbytes_short m (drop (pos + 2) buf) (omega (arith, length-drop (pos + 2) buf)),
    )

check_strings-Agrees : (n pos : ℕ) (buf : List ℕ) → pos ≤ length buf → Agrees n pos buf
unfolding check_strings get_strings
check_strings-Agrees zero pos buf h = record {
  accepted = λ e. let same : pos ≡ length buf = ground arith in ([], rw (same, drop_all buf));
  read = λ ss e. ground (arith, drop_end pos buf h);
}
check_strings-Agrees (suc n) pos buf h = elim (dec_lt (length buf) (pos + 2)) [
  | yes cut ↦ record {
    accepted = λ c. ground arith;
    read = λ ss c. ground (arith, get_string_cut buf pos h cut);
  }
  | no room ↦ elim (dec_lt (length buf) (next buf pos)) [
    | yes outside ↦ record {
      accepted = λ c. ground (arith, check_strings_outside n (next buf pos) buf);
      read = λ ss c. ground (arith, get_string_outside buf pos (omega arith) outside);
    }
    | no inside ↦
        let (s, e) = get_string_inside buf pos (omega arith) in
        let ih = check_strings-Agrees n (next buf pos) buf (omega arith) in
        record {
          accepted =
              λ c. let (ss, d) = ih.accepted (ground arith) in (s ∷ ss, ground (arith, e, d));
          read = λ ss c. elim (Option-cases (get_strings n (drop (next buf pos) buf))) [
            | inl q ↦ ground (arith, e, q)
            | inr ((ss', r), q) ↦ ground (arith, e, q, ih.read ss')
          ];
        }
  ]
]

nil_of_length {ℓ} : {A : Type ℓ} (xs : List A) → length xs ≡ 0 → xs ≡ []
nil_of_length [] h = refl
nil_of_length (x ∷ xs) h = absurd (omega arith)

-- `statcheck` accepts a buffer exactly when its first two bytes count the rest of it, and `convM2D`
-- decodes it to the last byte.
pub statcheck_iff :
    (buf : List ℕ) (strs : Bool)
    → (statcheck buf ≡ true)
      ↔ (length buf ≡ 2 + gbit16_at buf 0)
        × ((d : Dir) × (conv_m2d buf strs ≡ some (length buf, d)))
unfolding statcheck conv_m2d taken get_dir
statcheck_iff buf strs = elim (dec_lt (length buf) stat_fix_len) [
  | yes short ↦ (λ c. ground arith, λ x. let (n, (d, e)) = x in ground arith)
  | no room ↦
      let (d, p) = get_fixed-Takes.takes buf (omega arith) in
      let agrees = check_strings-Agrees 4 41 buf (omega arith) in
      (
        λ c.
            let (ss, q) = agrees.accepted (ground arith) in
            (ground arith, (set_names strs ss d, ground (arith, p, q))),
        λ x.
            let (n, (d', e)) = x in
            elim (Option-cases (get_strings 4 (drop 41 buf))) [
              | inl q ↦ ground (arith, p, q)
              | inr ((ss, r), q) ↦ ground (arith, p, q, agrees.read ss, nil_of_length r)
            ],
      )
]

size_field : (d : Dir) → IsU16 (size_d2m d - 2) → gbit16_at (dir_bytes d) 0 ≡ size_d2m d - 2
unfolding gbit16_at put_fixed
size_field d h = join16-digits (size_d2m d - 2) h

-- `statcheck` accepts the entry that `convD2M` wrote, if it fits and its size fits 16 bits.
pub statcheck-conv_d2m :
    (d : Dir) (nbuf n : ℕ) (out : List ℕ)
    → FitsDir d
    → IsU16 (size_d2m d - 2)
    → size_d2m d ≤ nbuf
    → conv_d2m d nbuf ≡ some (n, out)
    → statcheck out ≡ true
statcheck-conv_d2m d nbuf n out v small room e = (statcheck_iff out true).1 (
  ground (arith, written, size_field d small, length-dir_bytes d, fixed),
  (
    restored true d,
    ground (
      arith,
      written,
      rw append-nil at (conv_m2d-conv_d2m true d nbuf n out [] v room e),
      length-dir_bytes d,
    ),
  ),
)
  where
    fixed : 2 ≤ size_d2m d
    fixed = unfold size_d2m in omega arith

    written : (n ≡ size_d2m d) × (out ≡ dir_bytes d)
    written = ground (arith, conv_d2m_cases d nbuf, fixed)
