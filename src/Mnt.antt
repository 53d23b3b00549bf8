-- ===== src/Mnt.antt =====
-- kern/devmnt.c: the tags of 9P requests and the pool of requests.
pub mod Bits
pub mod Tags
pub mod Free
pub mod Pool
pub mod Distinct
pub mod Calls
pub mod Mux
pub mod Deliver
pub mod Multiplex
mod Tests
use drawterm.Prelude.{
  ℕ, zero, suc, ◌+◌, ◌-◌, ◌*◌, ◌/◌, ◌%◌, ◌<◌, ◌≡◌, Bool, true, false, Option, none, some, List, [],
  ◌∷◌, ltb, ◌==◌, if◌then◌else◌,
}

abbrev pub tagshift : ℕ
tagshift = 5

-- NMASK, `(64*1024)>>TAGSHIFT`.
abbrev pub nmask : ℕ
nmask = 2048

-- `(v >> j) & 1`, `v | 1<<j` and `v & ~(1<<j)`, bit by bit.
unfoldable pub get_bit : ℕ → ℕ → Bool
get_bit v zero = v % 2 == 1
get_bit v (suc j) = get_bit (v / 2) j

unfoldable pub set_bit : ℕ → ℕ → ℕ
set_bit v zero = v / 2 * 2 + 1
set_bit v (suc j) = set_bit (v / 2) j * 2 + v % 2

unfoldable pub clear_bit : ℕ → ℕ → ℕ
clear_bit v zero = v / 2 * 2
clear_bit v (suc j) = clear_bit (v / 2) j * 2 + v % 2

-- `n` ones; `full 32` is the -1 that a mask is compared with.
unfoldable pub full : ℕ → ℕ
full zero = 0
full (suc n) = full n * 2 + 1

abbrev pub mask_bits : ℕ
mask_bits = 32

-- `for(j = 0; (v & 1) != 0; j++) v >>= 1;`, for the bits of a mask.
unfoldable pub first_clear : ℕ → ℕ → ℕ
first_clear zero v = 0
first_clear (suc n) v = let rest = first_clear n (v / 2) in if v % 2 == 0 then 0 else suc rest

-- The loop of `alloctag` over the masks from `i` on: the tag, and the masks with its bit; `none` is
-- the panic.
unfoldable pub alloctag : ℕ → List ℕ → Option (ℕ × List ℕ)
alloctag i [] = none
alloctag i (v ∷ vs) =
    let rest = alloctag (suc i) vs in
    if v == 0xffff_ffff
    then (elim rest [ none ↦ none | some (t, ws) ↦ some (t, v ∷ ws) ])
    else let j = first_clear mask_bits v in some (i * 32 + j, set_bit v j ∷ vs)

abbrev pub update : ℕ → (ℕ → ℕ) → List ℕ → List ℕ
update i f [] = []
update zero f (v ∷ vs) = f v ∷ vs
update (suc i) f (v ∷ vs) = v ∷ update i f vs

unfoldable pub freetag : ℕ → List ℕ → List ℕ
freetag t masks = update (t / 32) (λ v. clear_bit v (t % 32)) masks

abbrev pub mask_at : ℕ → List ℕ → ℕ
mask_at i [] = 0
mask_at zero (v ∷ vs) = v
mask_at (suc i) (v ∷ vs) = mask_at i vs

-- Whether a tag is taken.
unfoldable pub has_tag : ℕ → List ℕ → Bool
has_tag t masks = get_bit (mask_at (t / 32) masks) (t % 32)

-- What is kept of `mntalloc`, and of each request, which is a number, its tag.
pub record Mntalloc : Type 0 where
  pub tagmask : List ℕ
  pub rpcfree : List ℕ
  pub nrpcfree : ℕ
  pub nrpcused : ℕ
  pub tag : ℕ → ℕ

abbrev pub zeros : ℕ → List ℕ
zeros zero = []
zeros (suc n) = 0 ∷ zeros n

-- `mntreset`
unfoldable pub mntreset : Mntalloc
mntreset = record {
  tagmask = update (nmask - 1) (λ v. 0x8000_0000) (update 0 (λ v. 1) (zeros nmask));
  rpcfree = [];
  nrpcfree = 0;
  nrpcused = 0;
  tag = λ r. 0;
}

-- The branch at `Alloc`: `new` is what `malloc` returned, and `none` is an error or a panic.
unfoldable pub alloc_rpc : Option ℕ → Mntalloc → Option (ℕ × Mntalloc)
alloc_rpc none p = none
alloc_rpc (some r) p = elim (alloctag 0 p.tagmask) [
  | none ↦ none
  | some (t, masks) ↦ some (
    r,
    record p {
      tagmask = masks;
      nrpcused = p.nrpcused + 1;
      tag = λ q. if q == r then t else p.tag q;
    },
  )
]

-- The branch that takes a request off the free list.
unfoldable pub reuse_rpc : Option ℕ → List ℕ → Mntalloc → Option (ℕ × Mntalloc)
reuse_rpc new [] p = alloc_rpc new p
reuse_rpc new (r ∷ rs) p =
    some (r, record p { rpcfree = rs; nrpcfree = p.nrpcfree - 1; nrpcused = p.nrpcused + 1 })

unfoldable pub mntralloc : Option ℕ → Mntalloc → Option (ℕ × Mntalloc)
mntralloc new p = if p.nrpcfree == 0 then alloc_rpc new p else reuse_rpc new p.rpcfree p

unfoldable pub mntfree : ℕ → Mntalloc → Mntalloc
mntfree r p =
    if ltb p.nrpcfree 32
    then record p { nrpcused = p.nrpcused - 1; rpcfree = r ∷ p.rpcfree; nrpcfree = p.nrpcfree + 1 }
    else record p { nrpcused = p.nrpcused - 1; tagmask = freetag (p.tag r) p.tagmask }
