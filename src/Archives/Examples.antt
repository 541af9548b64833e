-- ===== src/Archives/Examples.antt =====
-- Archives at a concrete directory, /app.
use substra_backend.Prelude.{false, ◌≡◌, refl, none, List, [], ◌∷◌, ◌++◌, All}
use substra_backend.Archives.{
  Part, MemberName, Member, regular, hardlink, abspath, is_traversal_attempt, check_kind,
  safetar_check,
}
use substra_backend.Archives.Requested.{
  Inside, is_valid_path, raise_if_path_traversal, raise_if_path_traversal-Inside,
}
use substra_backend.Archives.Escape.{
  AcceptedMember, beside, safetar_check-AcceptedMember, safetar_check-beside,
}

abbrev app : Part
app = 97 ∷ 112 ∷ 112 ∷ []

-- "-x" and "f"
abbrev suffix : Part
suffix = 45 ∷ 120 ∷ []

abbrev file : Part
file = 102 ∷ []

abbrev plain : MemberName
plain = record { is_absolute = false; parts = file ∷ [] }

abbrev members : List Member
members =
    record { name = plain; kind = regular } ∷ record { name = plain; kind = hardlink plain } ∷ []

safetar_check-AcceptedMember_example : All (AcceptedMember (app ∷ [])) members
unfolding safetar_check check_kind is_traversal_attempt abspath
safetar_check-AcceptedMember_example =
    safetar_check-AcceptedMember app [] refl (refl, tt) members
      (((refl, tt), tt), (((refl, tt), (refl, tt)), tt)) refl

safetar_check-beside_example :
    (safetar_check (app ∷ []) (record { name = beside (app ++ suffix) file; kind = regular } ∷ [])
      ≡ none)
    × (abspath (app ∷ []) (beside (app ++ suffix) file) ≡ (app ++ suffix) ∷ file ∷ [])
safetar_check-beside_example = safetar_check-beside [] app suffix file refl refl

raise_if_path_traversal-Inside_example :
    All (λ p. Inside (app ∷ []) (abspath (app ∷ []) p)) (plain ∷ plain ∷ [])
unfolding raise_if_path_traversal is_valid_path abspath
raise_if_path_traversal-Inside_example =
    raise_if_path_traversal-Inside (abspath (app ∷ [])) (plain ∷ plain ∷ []) (app ∷ []) (refl, tt)
      (refl, tt) ((refl, (refl, tt)), ((refl, (refl, tt)), tt)) refl
