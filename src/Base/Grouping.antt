-- ===== src/Base/Grouping.antt =====
-- Python's `d.setdefault(k, []).append(v)`, on a dictionary of lists.
use mathlib.Core.Path.{◌≡◌, sym}
use mathlib.Core.Option.{Option, none, some}
use mathlib.Core.Logic.{inl, inr}
use mathlib.Core.List.{List, [], ◌∷◌, ◌++◌, append-nil}
use distributed_validator_sp.Base.Tests.{if◌then◌else◌, Bool-cases}
use distributed_validator_sp.Base.Equality.{Eq, ◌==◌, ==-eq}
use distributed_validator_sp.Base.Assoc.{Dict, get, put, get-put_self, get-put_ne}

abbrev pub or_nil {ℓ} : {A : Type ℓ} → Option (List A) → List A
or_nil none = []
or_nil (some l) = l

module _ {ℓ κ} {K : Type ℓ} {V : Type κ} ⦃e : Eq K⦄ where
  -- The list under a key, after an element is appended to the list under `j`.
  pub get-put_append :
      (k j : K) (v : V) (d : Dict K (List V))
      → or_nil (get k (put j (or_nil (get j d) ++ v ∷ []) d))
        ≡ or_nil (get k d) ++ (if j == k then v ∷ [] else [])
  get-put_append k j v d = elim (Bool-cases (j == k)) [
    | inl t ↦ rw (t, ==-eq j k t) (rw get-put_self)
    | inr f ↦
        rw (f, get-put_ne j k (or_nil (get j d) ++ v ∷ []) d f)
          (sym (append-nil (or_nil (get k d))))
  ]
