-- ===== src/Scheduler/Orders.antt =====
-- The order of the views in a reply, which is that of a std::unordered_map of the storage master.
use mathlib.Core.Logic.{∥∥₁_elim}
use mathlib.Core.HLevel.{hedberg}
use mathlib.Core.List.{Mem, Perm, Permᴰ, mem-cons_self, mem-cons_of_mem}
use mathlib.Core.List.Permᴰ
use programmable_caching.Base.{
  String, Bool, true, false, Option, some, List, ◌≡◌, ◌∙◌, refl, sym, ap, All, ◌==◌, inl, inr,
  Bool-cases, arith, eq_iff, if◌then◌else◌,
}
use programmable_caching.Base.Dict.{lookup}
use programmable_caching.Base.Exec.{returns, at}
use programmable_caching.Proto.Common.{StorageName}
use programmable_caching.Proto.Storage.{ManagerView, GetViewReply}
use programmable_caching.Scheduler.View.{
  SystemView, parse_get_view_reply, get_persistent_mgr_for_file,
}
use programmable_caching.Scheduler.Parsing.{
  keeps, keeper, IsReadable, HasHost, parse_get_view_reply-keeper,
}

pub String-discrete : (a b : String) → Dec (a ≡ b)
String-discrete a b = elim (Bool-cases (a == b)) [
  | inl e ↦ yes ((eq_iff a b).0 e)
  | inr e ↦ no (λ same. ground (arith, e, eq_iff a b))
]

-- No two managers keep a file.
abbrev pub HasSoleKeepers : StorageName → List ManagerView → Type 0
HasSoleKeepers cached views =
    (a b : ManagerView)
    → Mem a views
    → Mem b views
    → (key : String) → keeps cached a key ≡ true
    → keeps cached b key ≡ true
    → a.name ≡ b.name

swap_ifs :
    (p q : Bool) (a b : String) (known : Option String)
    → (p ≡ true → q ≡ true → a ≡ b)
    → (if q then some b else if p then some a else known)
      ≡ (if p then some a else if q then some b else known)
swap_ifs true true a b known h = ap some (sym (h refl refl))
swap_ifs true false a b known h = refl
swap_ifs false true a b known h = refl
swap_ifs false false a b known h = refl

module _ (cached : StorageName) where
  abbrev pick : String → ManagerView → Option String → Option String
  pick key v known = if keeps cached v key then some v.name else known

  keeper-Permᴰ :
      {l r : List ManagerView}
      → Permᴰ l r
      → HasSoleKeepers cached l
      → (key : String) (known : Option String)
      → keeper cached l key known ≡ keeper cached r key known
  unfolding keeper
  keeper-Permᴰ Permᴰ.nil h key known = refl
  keeper-Permᴰ (Permᴰ.cons {a = a} {b = b} {l₁ = l} {l₂ = r} e d) h key known =
      keeper-Permᴰ d (λ x y mx my. h x y (mem-cons_of_mem a mx) (mem-cons_of_mem a my)) key _
      ∙ ap (λ v. keeper cached r key (if keeps cached v key then some v.name else known)) e
  keeper-Permᴰ (Permᴰ.swap {a = a} {b = b} {a' = a'} {b' = b'} {l = l} e e') h key known =
      ap (λ o. keeper cached l key o)
        (swap_ifs (keeps cached a key) (keeps cached b key) a.name b.name known
          (h a b mem-cons_self (mem-cons_of_mem a mem-cons_self) key))
      ∙ ap (λ v. keeper cached l key (pick key v (pick key b known))) e
      ∙ ap (λ v. keeper cached l key (pick key b' (pick key v known))) e'
  keeper-Permᴰ (Permᴰ.trans {l₁ = l} {l₂ = m} {l₃ = r} d d') h key known =
      keeper-Permᴰ d h key known
      ∙ keeper-Permᴰ d'
          (λ x y mx my. h x y (Permᴰ.mem (Permᴰ.symm d) mx) (Permᴰ.mem (Permᴰ.symm d) my)) key known

  keeper-Perm :
      {l r : List ManagerView}
      → Perm l r
      → HasSoleKeepers cached l
      → (key : String) (known : Option String)
      → keeper cached l key known ≡ keeper cached r key known
  keeper-Perm p h key known =
      ∥∥₁_elim p (hlevel (hedberg String-discrete)) (λ d. keeper-Permᴰ d h key known)

-- Two replies that list the same managers, in whatever order, and in which no two managers keep a
-- file, are both parsed without a fault if they are readable, and then GetPersistentMgrForFile
-- finds the same manager for each file, or throws after both.
pub parse_get_view_reply-Perm :
    (v : SystemView) (one other : GetViewReply)
    → All IsReadable one.view × All HasHost one.client
    → All IsReadable other.view × All HasHost other.client
    → Perm one.view other.view
    → HasSoleKeepers v.ephemeral one.view
    → (w w' : SystemView) × (parse_get_view_reply v one ≡ returns w)
      × (parse_get_view_reply v other ≡ returns w')
      × ((key : String) → get_persistent_mgr_for_file w key ≡ get_persistent_mgr_for_file w' key)
parse_get_view_reply-Perm v one other readable readable' p sole =
    let (w, ran, found) = parse_get_view_reply-keeper v one readable.0 readable.1 in
    let (w', ran', found') = parse_get_view_reply-keeper v other readable'.0 readable'.1 in
    (
      w,
      w',
      ran,
      ran',
      λ key.
          found key
          ∙ ap at (keeper-Perm v.ephemeral p sole key (lookup key v.persistant_key_to_mgr))
          ∙ sym (found' key),
    )
