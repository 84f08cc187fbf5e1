-- ===== src/Servers/OneServer.antt =====
-- A host with room for one server, for the examples.
pub mod OfWorld
use programmable_caching.Base.{
  ℕ, zero, suc, String, Bool, true, false, not, Option, none, some, ◌≡◌, ◌≢◌, ◌&&◌, ◌||◌, refl, ap,
  sym, ◌∙◌, inl, inr, leb, if◌then◌else◌, Bool-cases, arith,
}
use programmable_caching.Servers.{Hosting}
use programmable_caching.Servers.Hosts.{IsHosting, same_server}

not_none : {h : ℕ} → ◌≢◌ {A = Option ℕ} (some h) none
not_none e = cc

some_injective : {g h : ℕ} → ◌≡◌ {A = Option ℕ} (some g) (some h) → g ≡ h
some_injective e = cc

-- `up` tells whether the server listens, and `set` changes that.
module _ {S : Type 0} (up : S → Bool) (set : Bool → S → S) where
  abbrev pub one_server : Hosting S
  one_server = record {
    build_and_start = λ address s. if up s then (none, s) else (some 0, set true s);
    shutdown = λ h s. if leb h 0 then set false s else s;
    destroy = λ h s. if leb h 0 then set false s else s;
  }

  abbrev pub it_listens : ℕ → S → Bool
  it_listens j s = leb j 0 && up s

  module _ (up-set : (b : Bool) (s : S) → up (set b s) ≡ b) where
    after-set : (j : ℕ) (b : Bool) (s : S) → it_listens j (set b s) ≡ (leb j 0 && b)
    after-set j b s = rw (up-set b s) refl

    ended :
        (h j : ℕ) (s : S)
        → it_listens j (if leb h 0 then set false s else s)
          ≡ (not (same_server h j) && it_listens j s)
    ended h j s = ground (arith, after-set j false s)

    fresh_one :
        (address : String) (s t : S) (h : ℕ)
        → one_server.build_and_start address s ≡ (some h, t)
        → it_listens h s ≡ false
    fresh_one address s t h e = ground (arith, ap (λ p. p.0) e)

    started_one :
        (address : String) (s t : S) (h j : ℕ)
        → one_server.build_and_start address s ≡ (some h, t)
        → it_listens j t ≡ (same_server h j || it_listens j s)
    started_one address s t h j e = elim (Bool-cases (up s)) [
      | inl on ↦ absurd (not_none (sym (ap (λ p. p.0) (rw on at e))))
      | inr off ↦
          let built : ◌≡◌ {A = Option ℕ × S} (some 0, set true s) (some h, t) = rw off at e in
          let same : set true s ≡ t = ap (λ p. p.1) built in
          let first : 0 ≡ h = some_injective (ap (λ p. p.0) built) in
          let set_on : it_listens j t ≡ (leb j 0 && true) = rw (sym same) (after-set j true s) in
          ground (arith, off, first, set_on)
    ]

    refused_one :
        (address : String) (s t : S) (j : ℕ)
        → one_server.build_and_start address s ≡ (none, t)
        → it_listens j t ≡ it_listens j s
    refused_one address s t j e = elim (Bool-cases (up s)) [
      | inl on ↦ rw (ap (λ p. p.1) (sym (rw on at e))) refl
      | inr off ↦ absurd (not_none (ap (λ p. p.0) (rw off at e)))
    ]

    pub one_server-IsHosting : IsHosting one_server it_listens
    one_server-IsHosting = record {
      fresh = fresh_one;
      listens-started = started_one;
      listens-refused = refused_one;
      listens-shutdown = ended;
      listens-destroy = ended;
    }
