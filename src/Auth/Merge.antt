-- ===== src/Auth/Merge.antt =====
-- Adding what an actor lacks: the loops of `actorWithContestRoles`, and what they grant.
use soj.Prelude.{
  ◌≡◌, refl, sym, ap, ◌∙◌, Bool, true, false, ◌||◌, List, [], ◌∷◌, ◌++◌, if◌then◌else◌, any,
  Bool-cases, inl, inr, arith,
}
use mathlib.Core.Bool.{decide_iff, or-false}
use soj.Auth.{Role, Permission, Permission-discrete, same_role, same_permission, has}

-- `if !actor.HasRole(role) { actor.Roles = append(actor.Roles, role) }`
unfoldable pub add_roles : List Role → List Role → List Role
add_roles held [] = held
add_roles held (role ∷ roles) =
    add_roles (if any (same_role role) held then held else held ++ role ∷ []) roles

unfoldable pub add_permissions : List Permission → List Permission → List Permission
add_permissions held [] = held
add_permissions held (permission ∷ permissions) =
    add_permissions (if has held permission then held else held ++ permission ∷ []) permissions

has-append :
    (held more : List Permission) (p : Permission)
    → has (held ++ more) p ≡ (has held p || has more p)
unfolding has
has-append [] more p = refl
has-append (q ∷ held) more p = ground (arith, has-append held more p)

has_of_same_permission :
    (p q : Permission) (held : List Permission)
    → same_permission p q ≡ true
    → has held q ≡ has held p
unfolding same_permission
has_of_same_permission p q held h = ap (has held) (sym ((decide_iff (Permission-discrete p q)).0 h))

has_held_already :
    (held granted : List Permission) (p q : Permission)
    → has held q ≡ true
    → (has held p || has granted p) ≡ (has held p || has (q ∷ granted) p)
unfolding has
has_held_already held granted p q old = elim (Bool-cases (same_permission p q)) [
  | inl e ↦ rw (sym (has_of_same_permission p q held e) ∙ old) refl
  | inr e ↦ rw e refl
]

-- An actor who lacks nothing already held has exactly what was held or granted.
pub has-add_permissions :
    (held granted : List Permission) (p : Permission)
    → has (add_permissions held granted) p ≡ (has held p || has granted p)
unfolding add_permissions has
has-add_permissions held [] p = sym (or-false (has held p))
has-add_permissions held (q ∷ granted) p = elim (Bool-cases (has held q)) [
  | inl old ↦ rw old (has-add_permissions held granted p ∙ has_held_already held granted p q old)
  | inr new ↦ rw new (
      has-add_permissions (held ++ q ∷ []) granted p
      ∙ ap (λ b. b || has granted p) (has-append held (q ∷ []) p)
      ∙ regroup (has held p) (same_permission p q) (has granted p))
]
  where
    regroup : (a b c : Bool) → ((a || (b || false)) || c) ≡ (a || (b || c))
    regroup a b c = ground arith
