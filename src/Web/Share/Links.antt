-- ===== src/Web/Share/Links.antt =====
-- The lane of engine/web/share.py: create, revoke and resolve, over its two journals.
use rfp_engine.Prelude.Dict
use Prim.Native.String.{◌++◌ as text_append}
use rfp_engine.Prelude.{
  ◌||◌, ◌+◌, [], ◌&&◌, ltb, max, ◌∷◌, true, leb, List, if◌then◌else◌, false, str_eq, none, Bool,
  some, String, ℕ, Option,
}
use rfp_engine.Web.Share.Types.{
  fold_lines, max_link_time, type_error, contract_error, value_error, key_error, raises, denied,
  answers, Access, Answer, Link, Python,
}
use rfp_engine.Contracts.Lane.{Lane}
use rfp_engine.Workspace.Pursuit.Types.{ok, raise, Result}
use rfp_engine.Prelude.Texts.{drop_text}

abbrev number : Option ℕ → ℕ
number none = 0
number (some n) = n

module _ (py : Python) where
  unfoldable pub number_of : String → ℕ
  number_of k = number (py.digits (drop_text 3 k))

  -- The greatest number of an id; 0 where there is none.
  unfoldable pub highest : Dict.Dict Link → ℕ
  unfolding number_of
  highest [] = 0
  highest ((k, l) ∷ m) = max (number_of k) (highest m)

  abbrev pub next_id : Dict.Dict Link → String
  next_id m = text_append "sl_" (py.two_digits (highest m + 1))

  -- The two tests of the expiry, and the refusal of a text that is no time.
  unfoldable pub expiry_refused : String → String → Bool
  expiry_refused expires_at at = elim (py.parse expires_at) [
    | none ↦ true
    | some e ↦ elim (py.parse at) [ none ↦ true | some t ↦ leb e t || ltb (t + max_link_time) e ]
  ]

  -- Whether `secrets.compare_digest` finds the link's token in the guest's; a text that is not
  -- ASCII raises the TypeError.
  abbrev pub text_of : Option String → String
  text_of none = ""
  text_of (some t) = t

  abbrev pub has_token : String → Link → Bool
  has_token token l = str_eq (text_of l.token) token

  unfoldable pub holder : String → Dict.Dict Link → Answer (Option Link)
  holder token [] = answers none
  holder token ((k, l) ∷ m) =
      let rest = holder token m in
      if py.is_ascii (text_of l.token) && py.is_ascii token
      then if has_token token l then answers (some l) else rest
      else raises type_error

module _ (L : Lane Link) (A : Lane Access) (py : Python) where
  pub record State : Type 0 where
    pub links : L.File
    pub access : A.File

  abbrev pub log_access : Access → State → State
  log_access line s = record s { access = A.append line s.access }

  abbrev pub new_link : String → String → String → String → String → String → String → Link
  new_link i token pursuit created_by label expires_at at = record {
    link_id = i;
    token = some token;
    pursuit_id = some pursuit;
    created_by = some created_by;
    label = some label;
    created_at = some at;
    expires_at = some expires_at;
    revoked = false;
    revoked_by = none;
    revoked_at = none;
  }

  abbrev mint :
      String
      → String
      → String
      → String
      → String
      → String
      → Result (List Link)
      → State
      → Answer Link × State
  mint token pursuit created_by label expires_at at (raise e) s = (raises contract_error, s)
  mint token pursuit created_by label expires_at at (ok lines) s =
      let l =
        new_link (next_id py (fold_lines lines [])) token pursuit created_by label expires_at at in
      (answers l, record s { links = L.append l s.links })

  -- `create`; the token is what the factory gives.
  unfoldable pub create :
      String → String → String → String → String → String → State → Answer Link × State
  unfolding expiry_refused
  create token pursuit created_by label expires_at at s =
      if str_eq (py.strip label) ""
      then (denied 422, s)
      else if expiry_refused py expires_at at
      then (denied 422, s)
      else mint token pursuit created_by label expires_at at (L.read s.links) s

  abbrev pub revocation : String → String → String → Link
  revocation i by at = record {
    link_id = i;
    token = none;
    pursuit_id = none;
    created_by = none;
    label = none;
    created_at = none;
    expires_at = none;
    revoked = true;
    revoked_by = some by;
    revoked_at = some at;
  }

  abbrev revoke_known : String → String → String → Option Link → State → Answer Link × State
  revoke_known i by at none s = (denied 404, s)
  revoke_known i by at (some l) s = (
    answers (record l { revoked = true }),
    record s { links = L.append (revocation i by at) s.links },
  )

  abbrev revoke_read : String → String → String → Result (List Link) → State → Answer Link × State
  revoke_read i by at (raise e) s = (raises contract_error, s)
  revoke_read i by at (ok lines) s = revoke_known i by at (Dict.get i (fold_lines lines [])) s

  unfoldable pub revoke : String → String → String → State → Answer Link × State
  revoke i by at s = revoke_read i by at (L.read s.links) s

  abbrev pub verdict : Option String → String → String → Bool → String → Access
  verdict i at action granted detail = record {
    at = at;
    link_id = i;
    action = action;
    granted = granted;
    detail = detail;
  }

  abbrev pub logged : Answer Link → Access → State → Answer Link × State
  logged a line s = (a, log_access line s)

  abbrev pub parsed : Option ℕ → Answer ℕ
  parsed none = raises value_error
  parsed (some e) = answers e

  abbrev pub expires : Option String → Answer ℕ
  expires none = raises key_error
  expires (some t) = parsed (py.parse t)

  abbrev pub settle : String → String → Link → ℕ → Answer ℕ → State → Answer Link × State
  settle at action l t (raises f) s = (raises f, s)
  settle at action l t (denied n) s = (denied n, s)
  settle at action l t (answers e) s =
      if leb e t
      then logged (denied 410) (verdict (some l.link_id) at action false "expired") s
      else logged (answers l) (verdict (some l.link_id) at action true "") s

  abbrev pub resolve_live : String → String → Link → Option ℕ → State → Answer Link × State
  resolve_live at action l none s = (raises value_error, s)
  resolve_live at action l (some t) s = settle at action l t (expires l.expires_at) s

  abbrev pub resolve_held : String → String → Answer (Option Link) → State → Answer Link × State
  resolve_held at action (raises f) s = (raises f, s)
  resolve_held at action (denied n) s = (denied n, s)
  resolve_held at action (answers none) s =
      logged (denied 404) (verdict none at action false "unknown token") s
  resolve_held at action (answers (some l)) s =
      if l.revoked
      then logged (denied 410) (verdict (some l.link_id) at action false "revoked") s
      else resolve_live at action l (py.parse at) s

  abbrev resolve_read : String → String → String → Result (List Link) → State → Answer Link × State
  resolve_read token at action (raise e) s = (raises contract_error, s)
  resolve_read token at action (ok lines) s =
      resolve_held at action (holder py token (fold_lines lines [])) s

  unfoldable pub resolve : String → String → String → State → Answer Link × State
  resolve token at action s = resolve_read token at action (L.read s.links) s

  -- What a door of the lane is asked.
  pub data Op : Type 0 where
    creates : String → String → String → String → String → String → Op
    revokes resolves : String → String → String → Op

  unfoldable pub after : Op → State → State
  unfolding create revoke resolve
  after (creates token pursuit by label expires_at at) s =
      (create token pursuit by label expires_at at s).1
  after (revokes i by at) s = (revoke i by at s).1
  after (resolves token at action) s = (resolve token at action s).1

  unfoldable pub run : List Op → State → State
  unfolding after
  run [] s = s
  run (o ∷ os) s = run os (after o s)
