-- ===== src/Clients/Pool/Forks.antt =====
-- How the forks divide the clients (clients/execution/forks.go).
use mathlib.Core.List.{
  Perm, Permᴰ, perm_middle, perm_append_comm, append_assoc, append-nil, Perm-prop,
}
use mathlib.Core.List.Perm
use mathlib.Core.Logic.{∥∥₁_elim}
use assertoor.Clients.BlockCache.{BlockCache}
use assertoor.Clients.Pool.{
  Client, HeadFork, match_fork, join_fork, join_forks, with_ready, get_head_forks,
}
use assertoor.Prelude.{
  ℕ, ◌≡◌, refl, sym, inl, inr, none, some, List, [], ◌∷◌, ◌++◌, map, arith, Option-cases, nat_key,
  string_key,
}

pub members : List HeadFork → List Client
members [] = []
members (f ∷ fs) = f.all_clients ++ members fs

match_fork-all_clients :
    (cache : BlockCache) (c : Client) (f g : HeadFork)
    → match_fork cache c f ≡ some g
    → g.all_clients ≡ f.all_clients
unfolding match_fork
match_fork-all_clients cache c f g e = ground arith

join_fork-new :
    (cache : BlockCache) (c : Client) (f : HeadFork) (fs : List HeadFork)
    → match_fork cache c f ≡ none
    → join_fork cache c (f ∷ fs) ≡ f ∷ join_fork cache c fs
unfolding join_fork
join_fork-new cache c f fs e = rw (e, join_fork)

join_fork-joined :
    (cache : BlockCache) (c : Client) (f g : HeadFork) (fs : List HeadFork)
    → match_fork cache c f ≡ some g
    → join_fork cache c (f ∷ fs) ≡ record g { all_clients = g.all_clients ++ c ∷ [] } ∷ fs
unfolding join_fork
join_fork-joined cache c f g fs e = rw (e, join_fork)

join_fork-Perm :
    (cache : BlockCache) (c : Client) (fs : List HeadFork)
    → Perm (members (join_fork cache c fs)) (c ∷ members fs)
unfolding join_fork members
join_fork-Perm cache c [] = Perm.refl _
join_fork-Perm cache c (f ∷ fs) = elim (Option-cases (match_fork cache c f)) [
  | inl e ↦ rw (join_fork-new cache c f fs e) (
      Perm.trans (Perm.append_left f.all_clients (join_fork-Perm cache c fs))
        (perm_middle f.all_clients (members fs)))
  | inr (g, e) ↦
      rw
        (
          join_fork-joined cache c f g fs e,
          match_fork-all_clients cache c f g e,
          append_assoc f.all_clients (c ∷ []) (members fs),
        )
        (perm_middle f.all_clients (members fs))
]

join_forks-Perm :
    (cache : BlockCache) (cs : List Client) (fs : List HeadFork)
    → Perm (members (join_forks cache cs fs)) (cs ++ members fs)
unfolding join_forks
join_forks-Perm cache [] fs = Perm.refl _
join_forks-Perm cache (c ∷ cs) fs =
    Perm.trans (join_forks-Perm cache cs (join_fork cache c fs))
      (Perm.trans (Perm.append_left cs (join_fork-Perm cache c fs)) (perm_middle cs (members fs)))

members-with_ready :
    (d : ℕ) (cache : BlockCache) (fs : List HeadFork)
    → members (map (with_ready d cache) fs) ≡ members fs
unfolding with_ready members
members-with_ready d cache [] = refl
members-with_ready d cache (f ∷ fs) = rw (members-with_ready d cache fs)

members-Permᴰ : {fs gs : List HeadFork} → Permᴰ fs gs → Perm (members fs) (members gs)
unfolding members
members-Permᴰ Permᴰ.nil = Perm.refl []
members-Permᴰ (Permᴰ.cons {a} e p) = rw e (Perm.append_left _ (members-Permᴰ p))
members-Permᴰ (Permᴰ.swap {a} {b} {l = l} e f) =
    rw (sym e, sym f)
      (rw
        (
          ← append_assoc a.all_clients b.all_clients (members l),
          ← append_assoc b.all_clients a.all_clients (members l),
        )
        (Perm.append_right (members l) (perm_append_comm a.all_clients b.all_clients)))
members-Permᴰ (Permᴰ.trans p q) = Perm.trans (members-Permᴰ p) (members-Permᴰ q)

members-Perm : {fs gs : List HeadFork} → Perm fs gs → Perm (members fs) (members gs)
members-Perm p = ∥∥₁_elim p Perm-prop members-Permᴰ

-- Whatever order `sort.Slice` puts the forks in, each client of the pool is a member of one fork,
-- once: the members of the forks are a permutation of the clients.
pub get_head_forks-Perm :
    (sort : List HeadFork → List HeadFork)
    → ((fs : List HeadFork) → Perm (sort fs) fs)
    → (d : ℕ) (cache : BlockCache) (cs : List Client)
    → Perm (members (get_head_forks sort d cache cs)) cs
unfolding get_head_forks members
get_head_forks-Perm sort sorted d cache cs = Perm.trans (members-Perm (sorted _)) (
    rw (members-with_ready d cache (join_forks cache cs []))
      (Perm.trans (join_forks-Perm cache cs []) (rw (append-nil cs) (Perm.refl cs))))
