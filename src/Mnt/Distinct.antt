-- ===== src/Mnt/Distinct.antt =====
-- `mntralloc` and `mntfree` keep the tags of the requests apart.
use drawterm.Prelude.{
  ℕ, ◌+◌, ◌-◌, ◌≡◌, ◌≢◌, inl, inr, refl, subst, ◌∙◌, sym, Option, none, some, List, ◌∷◌, All,
  Bool-cases, ltb, if◌then◌else◌, arith,
}
use drawterm.Mnt.{alloctag, freetag, Mntalloc, alloc_rpc, mntfree}
use drawterm.Mnt.Free.{Freed, freetag-Freed, AllocTag, alloctag_lem}
use drawterm.Mnt.Pool.{
  Home, absent, used, cached, move, Distinct, Sound, move_same, All-move, Fresh-cached, with_tag,
  same_or_not, was_there, with_tag-Sound,
}

-- A request that is allocated moves to another place, and so does not leave the pool.
moved-Sound :
    (p p' : Mntalloc) (place : ℕ → Home) (r : ℕ) (x : Home)
    → Sound p place
    → place r ≢ absent
    → p'.tagmask ≡ p.tagmask
    → p'.tag ≡ p.tag
    → All (λ q. move place r x q ≡ cached) p'.rpcfree
    → Distinct p'.rpcfree
    → Sound p' (move place r x)
moved-Sound p p' place r x s there masks tags on once = record {
  words = rw masks s.words;
  masks = rw masks s.masks;
  zero_taken = rw masks s.zero_taken;
  notag_taken = rw masks s.notag_taken;
  proper = λ q h. rw tags (s.proper q (old q h));
  taken = λ q h. rw (masks, tags) (s.taken q (old q h));
  different = λ a b ha hb. rw tags (s.different a b (old a ha) (old b hb));
  on_list = on;
  once = once;
}
  where
    old : (q : ℕ) → move place r x q ≢ absent → place q ≢ absent
    old q h = elim (same_or_not q r) [
      | inl e ↦ λ z. there (subst (λ y. place y ≡ absent) e z)
      | inr away ↦ was_there place r q x away h
    ]

pub reuse-Sound :
    (p : Mntalloc) (place : ℕ → Home) (r : ℕ) (rs : List ℕ)
    → Sound p place
    → p.rpcfree ≡ r ∷ rs
    → Sound
        (record p { rpcfree = rs; nrpcfree = p.nrpcfree - 1; nrpcused = p.nrpcused + 1 })
        (move place r used)
reuse-Sound p place r rs s e =
    let on = rw e at s.on_list in
    let once = rw e at s.once in
    moved-Sound p _ place r used s (λ z. ground (arith, z, on.0)) refl refl
      (All-move place r used rs once.0 on.1) once.1

keep-Sound :
    (p : Mntalloc) (place : ℕ → Home) (r : ℕ)
    → Sound p place
    → place r ≡ used
    → Sound
        (record p { nrpcused = p.nrpcused - 1; rpcfree = r ∷ p.rpcfree; nrpcfree = p.nrpcfree + 1 })
        (move place r cached)
keep-Sound p place r s e =
    let fresh = Fresh-cached place r p.rpcfree (λ z. ground (arith, z, e)) s.on_list in
    moved-Sound p _ place r cached s (λ z. ground (arith, z, e)) refl refl
      (move_same place r cached, All-move place r cached p.rpcfree fresh s.on_list) (fresh, s.once)

gone : (place : ℕ → Home) (r q : ℕ) → move place r absent q ≢ absent → q ≢ r
gone place r q h e =
    h (subst (λ y. move place r absent y ≡ absent) (sym e) (move_same place r absent))

drop-Sound :
    (p : Mntalloc) (place : ℕ → Home) (r : ℕ)
    → Sound p place
    → place r ≡ used
    → Sound
        (record p { nrpcused = p.nrpcused - 1; tagmask = freetag (p.tag r) p.tagmask })
        (move place r absent)
drop-Sound p place r s e = record {
  words = f.words;
  masks = f.same_length ∙ s.masks;
  zero_taken = f.others 0 (λ z. (s.proper r there).0 (sym z)) ∙ s.zero_taken;
  notag_taken = f.others 0xffff (λ z. absurd (omega (arith, (s.proper r there).1))) ∙ s.notag_taken;
  proper = λ q h. s.proper q (old q h);
  taken = λ q h. f.others (p.tag q) (unlike q h) ∙ s.taken q (old q h);
  different = λ a b ha hb. s.different a b (old a ha) (old b hb);
  on_list =
      All-move place r absent p.rpcfree
        (Fresh-cached place r p.rpcfree (λ z. ground (arith, z, e)) s.on_list) s.on_list;
  once = s.once;
}
  where
    there : place r ≢ absent
    there = λ z. ground (arith, z, e)

    f : Freed (p.tag r) p.tagmask (freetag (p.tag r) p.tagmask)
    f = freetag-Freed (p.tag r) p.tagmask s.words (omega (arith, s.masks, (s.proper r there).1))

    old : (q : ℕ) → move place r absent q ≢ absent → place q ≢ absent
    old q h = was_there place r q absent (gone place r q h) h

    unlike : (q : ℕ) → move place r absent q ≢ absent → p.tag q ≢ p.tag r
    unlike q h z = gone place r q h (s.different q r (old q h) there z)

pub mntfree-Sound :
    (p : Mntalloc) (place : ℕ → Home) (r : ℕ)
    → Sound p place
    → place r ≡ used
    → Sound (mntfree r p) (move place r (if ltb p.nrpcfree 32 then cached else absent))
unfolding mntfree
mntfree-Sound p place r s e = elim (Bool-cases (ltb p.nrpcfree 32)) [
  | inl few ↦ rw few (keep-Sound p place r s e)
  | inr many ↦ rw many (drop-Sound p place r s e)
]

pub alloc_rpc-Sound :
    (p : Mntalloc) (place : ℕ → Home) (new : Option ℕ) (r : ℕ) (p' : Mntalloc)
    → Sound p place
    → ((q : ℕ) → new ≡ some q → place q ≡ absent)
    → alloc_rpc new p ≡ some (r, p')
    → Sound p' (move place r used)
unfolding alloc_rpc
alloc_rpc-Sound p place none r p' s away e = ground (arith, e)
alloc_rpc-Sound p place (some q) r p' s away e =
    go (alloctag 0 p.tagmask) (alloctag_lem p.tagmask s.words) e
  where
    go :
        (o : Option (ℕ × List ℕ))
        → AllocTag p.tagmask o
        → elim o as (λ _. Option (ℕ × Mntalloc)) [
          | none ↦ none
          | some (t, ws) ↦ some (q, with_tag p q t ws)
        ]
          ≡ some (r, p')
        → Sound p' (move place r used)
    go none k e = ground (arith, e)
    go (some (t, ws)) k e =
        let made = with_tag-Sound p place q t ws s (away q refl) (unfold AllocTag in k) in
        let same : q ≡ r = ground (arith, e) in
        let state : with_tag p q t ws ≡ p' = ground (arith, e) in rw (state, same) at made
