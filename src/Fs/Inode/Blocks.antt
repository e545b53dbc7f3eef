-- ===== src/Fs/Inode/Blocks.antt =====
-- fs/inode.c: `create_block` and `bmap` agree on the blocks that the inode itself names.
use linux.Base.{
  ℕ, ◌%◌, ◌^◌, ◌<◌, ◌≡◌, ◌≢◌, refl, ◌∙◌, ap, arith, ◌==◌, if◌then◌else◌, Bool, true, false, Outcome,
  returns, panics, hangs, exits,
}
use linux.Base.Int.{pos}
use linux.Fs.State.{FileSystem, World, new_block, with_inode}
use linux.Kernel.Sys.{current_time}
use linux.Fs.Inode.{map_block, bmap, create_block, bmap_zone, with_zone}

module _ (w : World) where
  direct :
      (p block : ℕ) (create : Bool) (s : FileSystem)
      → block < 7
      → map_block w p (pos block) create s ≡ bmap_zone w p block create s
  unfolding map_block
  direct p block create s h = ground arith

  bmap_zone-lookup :
      (p k : ℕ) (s : FileSystem) → bmap_zone w p k false s ≡ returns ((s.inode_at p).i_zone k, s)
  unfolding bmap_zone
  bmap_zone-lookup p k s = ground arith

  -- The rest of `bmap_zone` after `new_block`, for each way in which that can end.
  abbrev entered : (p k : ℕ) → Outcome (ℕ × FileSystem) → Outcome (ℕ × FileSystem)
  entered p k (returns (n, s)) = returns (
    n % 2 ^ 16,
    if n % 2 ^ 16 == 0 then s else with_inode p (with_zone k (n % 2 ^ 16) (current_time s.tasks)) s,
  )
  entered p k panics = panics
  entered p k (exits c) = exits c
  entered p k hangs = hangs

  bmap_zone-entered :
      (p k : ℕ) (s : FileSystem)
      → (s.inode_at p).i_zone k ≡ 0
      → (m : Outcome (ℕ × FileSystem)) → new_block w (s.inode_at p).i_dev s ≡ m
      → bmap_zone w p k true s ≡ entered p k m
  unfolding bmap_zone
  bmap_zone-entered p k s z (returns (n, s₁)) e = ground (arith, z, e)
  bmap_zone-entered p k s z panics e = ground (arith, z, e)
  bmap_zone-entered p k s z (exits c) e = ground (arith, z, e)
  bmap_zone-entered p k s z hangs e = ground (arith, z, e)

  entered_as :
      (p k nr : ℕ) (s : FileSystem)
      → nr % 2 ^ 16 ≡ nr
      → nr ≢ 0
      → entered p k (returns (nr, s))
        ≡ returns (nr, with_inode p (with_zone k nr (current_time s.tasks)) s)
  entered_as p k nr s small ne =
      let some : (nr == 0) ≡ false = ground (arith, ne) in rw (small, some) refl

  bmap_zone-kept :
      (p k : ℕ) (s : FileSystem)
      → (s.inode_at p).i_zone k ≢ 0
      → bmap_zone w p k true s ≡ returns ((s.inode_at p).i_zone k, s)
  unfolding bmap_zone
  bmap_zone-kept p k s ne = ground (arith, ne)

  -- For one of the first seven blocks of a file that is not there yet, `create_block` takes the number
  -- that `new_block` gives, if this is not 0 and fits an `unsigned short`: it returns that number, it
  -- has set the time of change and marked the inode as dirty, and `bmap` then finds the number there,
  -- without a change of the state.
  pub bmap-create_block :
      (p block nr : ℕ) (s s₁ : FileSystem)
      → block < 7
      → (s.inode_at p).i_zone block ≡ 0
      → new_block w (s.inode_at p).i_dev s ≡ returns (nr, s₁)
      → nr ≢ 0
      → nr < 2 ^ 16
      → let s' = with_inode p (with_zone block nr (current_time s₁.tasks)) s₁ in
        (create_block w p (pos block) s ≡ returns (nr, s'))
        × (bmap w p (pos block) s' ≡ returns (nr, s'))
        × ((s'.inode_at p).i_dirt ≡ true)
  unfolding create_block bmap
  bmap-create_block p block nr s s₁ h z new ne l =
      let s' = with_inode p (with_zone block nr (current_time s₁.tasks)) s₁ in
      let small : nr % 2 ^ 16 ≡ nr = omega (arith, l) in
      let there : (s'.inode_at p).i_zone block ≡ nr = ground arith in
      (
        direct p block true s h
            ∙ bmap_zone-entered p block s z (returns (nr, s₁)) new
            ∙ entered_as p block nr s₁ small ne,
        direct p block false s' h
            ∙ bmap_zone-lookup p block s'
            ∙ ap {B = Outcome (ℕ × FileSystem)} (λ n. returns (n, s')) there,
        ground arith,
      )

  -- A block that is there is returned as it is, and nothing changes.
  create_block-kept :
      (p block : ℕ) (s : FileSystem)
      → block < 7
      → (s.inode_at p).i_zone block ≢ 0
      → create_block w p (pos block) s ≡ returns ((s.inode_at p).i_zone block, s)
  unfolding create_block
  create_block-kept p block s h ne = direct p block true s h ∙ bmap_zone-kept p block s ne
