-- ===== src/Agent/Registry.antt =====
-- The registries of tools and skills (src/apps/ai/tools/registry.py, src/apps/ai/skills/registry.py).
-- A tool's handler and a skill's input and output models are fields: what a registered definition
-- does with a value. So is the exception, if any, that the capture of a result as evidence ends in.
use noshiro_db_backend.Base.{
  ◌≡◌, refl, ◌∙◌, ◌≢◌, ◌⊎◌, inl, inr, Bool, Option, none, some, List, [], ◌∷◌, ◌++◌, String, arith,
  str_eq, if◌then◌else◌, eq_iff, is_some, Option-cases, first_where, select_where,
}
use noshiro_db_backend.Agent.Model.{ToolParameters}

-- What a call of code that may raise comes to; an exception is its text.
pub data Outcome : Type 0 where
  returned : String → Outcome
  raises : String → Outcome

pub record ToolDefinition : Type 0 where
  pub name : String
  pub version : String
  pub permission : String
  pub risk_level : String
  pub has_side_effects : Bool
  pub records_evidence : Bool
  pub execute : ToolParameters → Outcome
  pub capture_fault : String → Option String

pub record SkillDefinition : Type 0 where
  pub name : String
  pub version : String
  pub output_schema : String
  pub validate_input : String → Outcome
  pub validate_output : String → Outcome

-- A dictionary by name, in insertion order.
module _ {A : Type 0} (name_of : A → String) where
  unfoldable get_named : String → List A → Option A
  get_named name entries = first_where (λ a. str_eq (name_of a) name) entries

  -- `register`: `none` is the `ValueError` of a name that is taken.
  unfoldable register_named : A → List A → Option (List A)
  unfolding get_named
  register_named a entries =
      if is_some (get_named (name_of a) entries) then none else some (entries ++ a ∷ [])

abbrev tool_name_of : ToolDefinition → String
tool_name_of t = t.name

abbrev skill_name_of : SkillDefinition → String
skill_name_of s = s.name

-- `ToolRegistry.get`, where `none` is the `KeyError`.
unfoldable pub get_tool : String → List ToolDefinition → Option ToolDefinition
unfolding get_named
get_tool = get_named tool_name_of

-- `ToolRegistry.register`
unfoldable register_tool : ToolDefinition → List ToolDefinition → Option (List ToolDefinition)
unfolding register_named
register_tool = register_named tool_name_of

-- `ToolRegistry.list_by_permission`
unfoldable list_by_permission : String → List ToolDefinition → List ToolDefinition
list_by_permission permission = select_where (λ t. str_eq t.permission permission)

-- `SkillRegistry.get`
unfoldable pub get_skill : String → List SkillDefinition → Option SkillDefinition
unfolding get_named
get_skill = get_named skill_name_of

-- `SkillRegistry.register`
unfoldable register_skill : SkillDefinition → List SkillDefinition → Option (List SkillDefinition)
unfolding register_named
register_skill = register_named skill_name_of

first_where-append :
    {A : Type 0} (p : A → Bool) (s t : List A)
    → first_where p (s ++ t) ≡ (elim (first_where p s) [ none ↦ first_where p t | some a ↦ some a ])
first_where-append p [] t = refl
first_where-append p (x ∷ s) t = ground (arith, first_where-append p s t)

-- Once a tool is registered it is found under its name, every other name is looked up as before,
-- and no second tool can be registered under that name.
get_tool-register_tool :
    (t t' : ToolDefinition) (entries after : List ToolDefinition) (n : String)
    → register_tool t entries ≡ some after
    → n ≢ t.name
    → t'.name ≡ t.name
    → (get_tool t.name after ≡ some t)
      × (get_tool n after ≡ get_tool n entries)
      × (register_tool t' after ≡ none)
unfolding get_tool register_tool
get_tool-register_tool t t' entries after n h ne same =
    elim (Option-cases (first_where (λ a. str_eq a.name t.name) entries)) [
      | inr (a, e) ↦ absurd (ground arith)
      | inl e ↦
          let grown : after ≡ entries ++ t ∷ [] = ground arith in
          (
            rw grown (
                first_where-append (λ a. str_eq a.name t.name) entries (t ∷ [])
                ∙ ground (arith, eq_iff t.name t.name)),
            rw grown (
                first_where-append (λ a. str_eq a.name n) entries (t ∷ [])
                ∙ ground (arith, eq_iff t.name n)),
            rw (grown, same)
                (ground (
                  arith,
                  first_where-append (λ a. str_eq a.name t.name) entries (t ∷ []),
                  eq_iff t.name t.name,
                )),
          )
    ]

pub Outcome-cases :
    (o : Outcome) → ((t : String) × (o ≡ raises t)) ⊎ ((t : String) × (o ≡ returned t))
Outcome-cases (raises t) = inl (t, refl)
Outcome-cases (returned t) = inr (t, refl)
