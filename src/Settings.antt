-- ===== src/Settings.antt =====
-- settings_store.go, template_store.go: the settings of the administration, merged field by field,
-- and the mail templates and page translations with their order of creation.
use awesome_go_auth.Base.{String, Bool, Option, none, some, List, [], ◌∷◌, ◌++◌, ◌≡◌, refl}
use awesome_go_auth.Base.Dict.{Dict, empty, get, put}
use awesome_go_auth.Errors.{ok, M}
use awesome_go_auth.Paging.{ℤ}

pub record UiSettings : Type 0 where
  pub primary_color : Option String
  pub secondary_color : Option String
  pub logo_url : Option String
  pub site_name : Option String
  pub logo_path : Option String
  pub bg_color : Option String
  pub bg_image : Option String
  pub card_bg : Option String

pub record AuthSettings : Type 0 where
  pub require_email_verification : Option Bool
  pub email_verification_mode : Option String
  pub lazy_email_verification_grace_period_days : Option ℤ
  pub require_2fa : Option Bool
  pub enabled_webhook_actions : Option (List String)
  pub ui : Option UiSettings

-- if patch.X != nil { merged.X = patch.X }
abbrev merged : {A : Type 0} → Option A → Option A → Option A
merged current none = current
merged current (some new) = some new

unfoldable pub merge_settings : AuthSettings → AuthSettings → AuthSettings
merge_settings current patch = record {
  require_email_verification =
      merged current.require_email_verification patch.require_email_verification;
  email_verification_mode = merged current.email_verification_mode patch.email_verification_mode;
  lazy_email_verification_grace_period_days =
      merged current.lazy_email_verification_grace_period_days
        patch.lazy_email_verification_grace_period_days;
  require_2fa = merged current.require_2fa patch.require_2fa;
  enabled_webhook_actions = merged current.enabled_webhook_actions patch.enabled_webhook_actions;
  ui = merged current.ui patch.ui;
}

unfoldable pub update_settings : AuthSettings → M AuthSettings AuthSettings
update_settings patch settings = let new = merge_settings settings patch in (ok new, new)

merged_twice : {A : Type 0} (a b c : Option A) → merged (merged a b) c ≡ merged a (merged b c)
merged_twice a b none = refl
merged_twice a b (some c) = refl

-- Two updates one after the other are one by the merged patch.
pub merge_settings-merge_settings :
    (settings first second : AuthSettings)
    → merge_settings (merge_settings settings first) second
      ≡ merge_settings settings (merge_settings first second)
unfolding merge_settings
merge_settings-merge_settings settings first second = simp merged_twice

pub record MailTemplate : Type 0 where
  pub id : String
  pub base_html : String
  pub base_text : String
  pub translations : Dict (Dict String)

pub record UiTranslation : Type 0 where
  pub page : String
  pub translations : Dict (Dict String)

pub record MailTemplatePatch : Type 0 where
  pub base_html : Option String
  pub base_text : Option String
  pub translations : Option (Dict (Dict String))

pub record MemoryTemplateStore : Type 0 where
  pub mail : Dict MailTemplate
  pub mail_order : List String
  pub ui : Dict UiTranslation
  pub ui_order : List String

unfoldable pub new_memory_template_store : MemoryTemplateStore
new_memory_template_store = record { mail = empty; mail_order = []; ui = empty; ui_order = [] }

unfoldable pub get_mail_template : String → MemoryTemplateStore → Option MailTemplate
get_mail_template id s = get s.mail id

-- a patch field that is absent leaves the old value
abbrev or_old : {A : Type 0} → Option A → A → A
or_old none old = old
or_old (some new) old = new

unfoldable pub patched_template : MailTemplatePatch → MailTemplate → MailTemplate
patched_template patch current = record {
  id = current.id;
  base_html = or_old patch.base_html current.base_html;
  base_text = or_old patch.base_text current.base_text;
  translations = or_old patch.translations current.translations;
}

abbrev pub blank_template : String → MailTemplate
unfolding empty
blank_template id = record { id = id; base_html = ""; base_text = ""; translations = empty }

unfoldable pub update_mail_template :
    String → MailTemplatePatch → M MemoryTemplateStore MailTemplate
update_mail_template id patch s = elim (get s.mail id) [
  | none ↦
      let new = patched_template patch (blank_template id) in
      (ok new, record s { mail = put s.mail id new; mail_order = s.mail_order ++ id ∷ [] })
  | some current ↦
      let new = patched_template patch current in (ok new, record s { mail = put s.mail id new })
]

unfoldable pub get_ui_translations : String → MemoryTemplateStore → Option UiTranslation
get_ui_translations page s = get s.ui page

unfoldable pub update_ui_translations :
    String → Dict (Dict String) → M MemoryTemplateStore UiTranslation
update_ui_translations page translations s =
    let new : UiTranslation = record { page = page; translations = translations } in
    elim (get s.ui page) [
      | none ↦ (ok new, record s { ui = put s.ui page new; ui_order = s.ui_order ++ page ∷ [] })
      | some _ ↦ (ok new, record s { ui = put s.ui page new })
    ]

-- s.mail[id], the zero value on a missing key
unfoldable pub list_mail_templates : MemoryTemplateStore → List MailTemplate
list_mail_templates s = go s.mail_order
  where
    go : List String → List MailTemplate
    go [] = []
    go (id ∷ ids) = elim (get s.mail id) [ none ↦ blank_template "" | some tpl ↦ tpl ] ∷ go ids

unfoldable pub list_ui_translations : MemoryTemplateStore → List UiTranslation
list_ui_translations s = go s.ui_order
  where
    go : List String → List UiTranslation
    go [] = []
    go (page ∷ pages) =
        elim (get s.ui page) [ none ↦ record { page = ""; translations = empty } | some ui ↦ ui ]
        ∷ go pages
