-- ===== src/Fs/Rooted.antt =====
-- The way from a node of kernel/fs/fs.c to the root, along `parent_idx`.
use mex_os.Base.{ℕ, ◌≡◌, sym, subst, true, List}
use mex_os.Fs.Node.{Node, node_at}

-- A node from which the parents lead to the root, through used nodes.
pub data Rooted (nodes : List Node) : ℕ → Type 0 where
  at_root : Rooted nodes 0
  from_parent :
      (k : ℕ)
      → (node_at nodes k).used ≡ true
      → Rooted nodes (node_at nodes k).parent_idx
      → Rooted nodes k

-- A table in which every used node stays used and keeps its parent has the same paths to the root.
pub Rooted-kept :
    (m n : List Node)
    → ((k : ℕ)
        → (node_at m k).used ≡ true
        → ((node_at n k).used ≡ true) × ((node_at n k).parent_idx ≡ (node_at m k).parent_idx))
    → {k : ℕ} → Rooted m k
    → Rooted n k
Rooted-kept m n kept at_root = at_root
Rooted-kept m n kept (from_parent k used r) =
    from_parent k (kept k used).0 (subst (Rooted n) (sym (kept k used).1) (Rooted-kept m n kept r))
