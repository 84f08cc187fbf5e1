-- ===== src/Servers/Hosts.antt =====
-- What gRPC documents of its servers.
use programmable_caching.Base.{
  ℕ, String, Bool, true, false, not, Option, none, some, ◌≡◌, ◌⊎◌, inl, inr, refl, ◌∙◌, ◌&&◌, ◌||◌,
  leb, Bool-cases, sym, arith,
}
use programmable_caching.Base.Exec.{returns, faults, undefined}
use programmable_caching.Servers.{Hosting, release, shut}

abbrev pub same_server : ℕ → ℕ → Bool
same_server h j = leb h j && leb j h

-- A server that BuildAndStart gives is another one than those that listen, and listens; no other
-- server changes, and none where it gives none. Shutdown and the destructor end one server.
pub record IsHosting {S : Type 0} (G : Hosting S) (listens : ℕ → S → Bool) : Type 0 where
  pub fresh :
      (address : String) (s t : S) (h : ℕ)
      → G.build_and_start address s ≡ (some h, t)
      → listens h s ≡ false
  pub listens-started :
      (address : String) (s t : S) (h j : ℕ)
      → G.build_and_start address s ≡ (some h, t)
      → listens j t ≡ (same_server h j || listens j s)
  pub listens-refused :
      (address : String) (s t : S) (j : ℕ)
      → G.build_and_start address s ≡ (none, t)
      → listens j t ≡ listens j s
  pub listens-shutdown :
      (h j : ℕ) (s : S) → listens j (G.shutdown h s) ≡ (not (same_server h j) && listens j s)
  pub listens-destroy :
      (h j : ℕ) (s : S) → listens j (G.destroy h s) ≡ (not (same_server h j) && listens j s)

same_server-eq : (h j : ℕ) → same_server h j ≡ true → h ≡ j
same_server-eq h j e = ground (arith, e)

module _ {S : Type 0} (G : Hosting S) (listens : ℕ → S → Bool) (hosting : IsHosting G listens) where
  -- A server that was started and is ended again leaves the others.
  gone_again :
      (address : String) (s t : S) (h j : ℕ)
      → G.build_and_start address s ≡ (some h, t)
      → (not (same_server h j) && listens j t) ≡ listens j s
  gone_again address s t h j e = elim (Bool-cases (same_server h j)) [
    | inl same ↦ rw same (sym (rw (sym (same_server-eq h j same)) (hosting.fresh address s t h e)))
    | inr other ↦ rw (other, hosting.listens-started address s t h j e, other) refl
  ]

  pub release-started :
      (address : String) (s : S) (server : Option ℕ) (t : S)
      → G.build_and_start address s ≡ (server, t)
      → (j : ℕ) → listens j (release G server t) ≡ listens j s
  unfolding release
  release-started address s none t e j = hosting.listens-refused address s t j e
  release-started address s (some h) t e j =
      hosting.listens-destroy h j t ∙ gone_again address s t h j e

  pub shut-started :
      (address : String) (s : S) (server : Option ℕ) (t : S)
      → G.build_and_start address s ≡ (server, t)
      → ((server ≡ none) × (shut G server t ≡ (faults undefined, t)))
        ⊎ ((h : ℕ) × (server ≡ some h)
            × (listens h t ≡ true)
            × (shut G server t ≡ (returns tt, G.shutdown h t))
            × ((j : ℕ) → listens j (G.shutdown h t) ≡ listens j s))
  unfolding shut
  shut-started address s none t e = inl (refl, refl)
  shut-started address s (some h) t e = inr (
    h,
    refl,
    ground (arith, hosting.listens-started address s t h h e),
    refl,
    λ j. hosting.listens-shutdown h j t ∙ gone_again address s t h j e,
  )
