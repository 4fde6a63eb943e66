-- ===== src/Services/Security/Commands.antt =====
-- The as of commands table a map from texts to roles.
use agile_firmware_framework.Prelude.{
  ℕ, ◌<◌, ◌≡◌, refl, ap, Bool, true, false, ◌&&◌, ◌||◌, Option, none, some, List, [], ◌∷◌, length,
  set, leb, ltb, ◌==◌, if◌then◌else◌, Bool-cases, Option-cases, inl, inr, arith, All,
}
use agile_firmware_framework.Prelude.Copy.{copy}
use agile_firmware_framework.Uhal.{Status, ok, is_ok, invalid_argument, no_resources, denied}
use agile_firmware_framework.Services.Limits.{config_key_capacity}
use agile_firmware_framework.Services.Text.{
  text_equal, text_length_lem, text_equal_lem, c_text, c_text-copy, same, same→eq, same_sym,
}
use agile_firmware_framework.Services.Security.{
  SecurityRole, role_code, Authorization, SecurityPolicy, change_role, add_role, register_command,
  required_role, authorize,
}

abbrev pub text : List ℕ → List ℕ
text command = c_text config_key_capacity command

-- Every command array has its capacity.
abbrev pub IsTable : List Authorization → Type 0
IsTable table = All (λ (a : Authorization). length a.command ≡ config_key_capacity) table

matches : List ℕ → List ℕ → Bool
matches l r = same (text l) (text r) && ltb (length (text l)) config_key_capacity

equal-matches : (l r : List ℕ) → text_equal (some l) (some r) config_key_capacity ≡ matches l r
unfolding matches
equal-matches l r = text_equal_lem l r config_key_capacity

-- Two commands of the same text match the same texts.
matches_trans : (a c d : List ℕ) → matches a c ≡ true → matches a d ≡ same (text c) (text d)
unfolding matches
matches_trans a c d h =
    let e : text a ≡ text c = same→eq (text a) (text c) (ground arith) in
    let l : length (text a) ≡ length (text c) = ap length e in rw e (ground arith)

-- A command that matches another text than `c` does not have the text of `c`.
matches-false :
    (a c d : List ℕ) → matches a c ≡ false → matches a d ≡ true → same (text c) (text d) ≡ false
unfolding matches
matches-false a c d h k = elim (Bool-cases (same (text c) (text d))) [
  | inr e ↦ e
  | inl e ↦
      let f : text c ≡ text d = same→eq (text c) (text d) e in
      let g : matches a c ≡ matches a d = unfold matches in rw f in cc
]

abbrev pub is_some {ℓ} : {A : Type ℓ} → Option A → Bool
is_some none = false
is_some (some a) = true

-- Some authorization is not used.
unfoldable pub has_room : List Authorization → Bool
has_room [] = false
has_room (a ∷ table) = if a.used then has_room table else true

-- What `register_command` answers.
unfoldable pub register_status : List ℕ → List Authorization → Status
register_status c table =
    if length (text c) == 0 || leb config_key_capacity (length (text c))
    then invalid_argument
    else if is_some (required_role table (some c)) || has_room table
    then ok
    else no_resources

module _ (c d : List ℕ) (role : SecurityRole) where
  required-change :
      (table bs : List Authorization)
      → change_role table (some c) role ≡ some bs
      → required_role bs (some d)
        ≡ (if same (text c) (text d) then some role else required_role table (some d))
  unfolding change_role required_role
  required-change [] bs h = cc
  required-change (a ∷ table) bs h = elim (Option-cases (change_role table (some c) role)) [
    | inl e ↦ ground (
      arith,
      equal-matches a.command c,
      equal-matches a.command d,
      matches_trans a.command c d,
      matches-false a.command c d,
    )
    | inr (ts, e) ↦ ground (
      arith,
      equal-matches a.command c,
      equal-matches a.command d,
      matches_trans a.command c d,
      matches-false a.command c d,
      required-change table ts e,
    )
  ]

  change-none :
      (table : List Authorization)
      → change_role table (some c) role ≡ none
      → required_role table (some c) ≡ none
  unfolding change_role required_role
  change-none [] h = refl
  change-none (a ∷ table) h = elim (Option-cases (change_role table (some c) role)) [
    | inl e ↦ ground (arith, change-none table e)
    | inr (ts, e) ↦ ground arith
  ]

  -- Where no authorization has the command, a new one is the only one that does.
  required-add :
      (table bs : List Authorization)
      → IsTable table
      → required_role table (some c) ≡ none
      → length (text c) < config_key_capacity
      → add_role table c (length (text c)) role ≡ some bs
      → required_role bs (some d)
        ≡ (if same (text c) (text d) then some role else required_role table (some d))
  unfolding add_role required_role
  required-add [] bs v miss fits h = cc
  required-add (a ∷ table) bs v miss fits h =
      elim (Option-cases (add_role table c (length (text c)) role)) [
        | inl e ↦ ground (
          arith,
          equal-matches a.command c,
          equal-matches a.command d,
          matches-false c c d,
          new,
          equal-matches added d,
          matches_trans a.command d c,
          same_sym (text c) (text d),
        )
        | inr (ts, e) ↦ ground (
          arith,
          equal-matches a.command c,
          equal-matches a.command d,
          matches_trans a.command d c,
          same_sym (text c) (text d),
          new,
          equal-matches added d,
          required-add table ts v.1,
        )
      ]
    where
      added : List ℕ
      added = set (copy (length (text c)) c a.command) (length (text c)) 0

      new : matches added d ≡ same (text c) (text d)
      new = unfold matches in rw (c_text-copy config_key_capacity c a.command v.0) (ground arith)

  add-room :
      (table : List Authorization)
      → is_some (add_role table c (length (text c)) role) ≡ has_room table
  unfolding add_role has_room
  add-room [] = refl
  add-room (a ∷ table) = elim (Option-cases (add_role table c (length (text c)) role)) [
    | inl e ↦ ground (arith, add-room table)
    | inr (ts, e) ↦ ground (arith, add-room table)
  ]

  change-known :
      (table : List Authorization)
      → is_some (change_role table (some c) role) ≡ is_some (required_role table (some c))
  unfolding change_role required_role
  change-known [] = refl
  change-known (a ∷ table) = elim (Option-cases (change_role table (some c) role)) [
    | inl e ↦ ground (arith, change-known table)
    | inr (ts, e) ↦ ground (arith, change-known table)
  ]

  authorize-if :
      (actual : SecurityRole) (p : SecurityPolicy) (bs : List Authorization)
      → required_role bs (some d)
        ≡ (if same (text c) (text d) then some role else required_role p.authorizations (some d))
      → authorize (some d) actual (record p { authorizations = bs }) ≡ (
          if same (text c) (text d)
          then (if leb (role_code role) (role_code actual) then ok else denied)
          else authorize (some d) actual p)
  unfolding authorize
  authorize-if actual p bs h = ground arith

  -- `register_command` on a table whose arrays have their capacity: it answers by the length of the
  -- command's text, by whether the command is known and by the room left. Only if it answers `ok`,
  -- and only for that command, `authorize` changes: it then answers by the role that was registered.
  pub authorize-register_command :
      (actual : SecurityRole) (p : SecurityPolicy)
      → IsTable p.authorizations
      → let (status, p') = register_command (some c) role p in
        (status ≡ register_status c p.authorizations)
        × (authorize (some d) actual p' ≡ (
            if is_ok status && same (text c) (text d)
            then (if leb (role_code role) (role_code actual) then ok else denied)
            else authorize (some d) actual p))
  unfolding register_command register_status
  authorize-register_command actual p v =
      elim (Bool-cases (length (text c) == 0 || leb config_key_capacity (length (text c)))) [
        | inl bad ↦ rw (text_length_lem c config_key_capacity, bad) (refl, refl)
        | inr good ↦
            rw (text_length_lem c config_key_capacity, good)
              (elim (Option-cases (change_role p.authorizations (some c) role)) [
                | inr (bs, e) ↦ rw e (
                  ground (arith, change-known p.authorizations),
                  authorize-if actual p bs (required-change p.authorizations bs e),
                )
                | inl e ↦ elim (Option-cases (add_role p.authorizations c (length (text c)) role)) [
                  | inr (bs, f) ↦
                      rw (e, f)
                        (
                          ground (arith, add-room p.authorizations),
                          authorize-if actual p bs (
                              required-add p.authorizations bs v (change-none p.authorizations e)
                                (ground arith) f),
                        )
                  | inl f ↦
                      rw (e, f)
                        (
                          ground (arith, change-known p.authorizations, add-room p.authorizations),
                          refl,
                        )
                ]
              ])
      ]
