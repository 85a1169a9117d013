-- ===== src/Users/Settings.antt =====
-- internal/users/settings.go and credentials.go: tables of one row, of which a load before any save
-- finds none. Numbers are natural ones, a duration is in nanoseconds.
use my_eink_library.Common.{
  ◌==◌, if◌then◌else◌, Option-cases, Result, ok, err, Text, is_empty, ℕ, ◌*◌, ◌/◌, ◌≡◌, refl, inl,
  inr, Bool, true, false, not, Option, none, some, [], arith,
}
use my_eink_library.Users.{UsersError, random_failed}

-- mail.Settings
pub record MailSettings : Type 0 where
  pub host : Text
  pub port : ℕ
  pub encryption : Text
  pub username : Text
  pub password : Text
  pub from_name : Text
  pub from_address : Text

pub record IntegrationSettings : Type 0 where
  pub hardcover_enabled : Bool
  pub hardcover_token : Text
  pub chaptarr_enabled : Bool
  pub chaptarr_url : Text
  pub chaptarr_api_key : Text
  pub hide_no_chaptarr_match : Bool
  pub hide_no_hardcover_match : Bool
  pub hardcover_overwrite_cover : Bool

-- The columns of integration_settings, with 0 and 1 for the flags.
pub record IntegrationRow : Type 0 where
  pub hardcover_enabled : ℕ
  pub hardcover_token : Text
  pub chaptarr_enabled : ℕ
  pub chaptarr_url : Text
  pub chaptarr_api_key : Text
  pub hide_no_chaptarr_match : ℕ
  pub hide_no_hardcover_match : ℕ
  pub hardcover_overwrite_cover : ℕ

pub record KepubSettings : Type 0 where
  pub enabled : Bool
  pub write_calibre_metadata : Bool

pub record GeneralSettings : Type 0 where
  pub site_name : Text
  pub public_url : Text
  pub cover_width : ℕ
  pub page_size : ℕ
  pub shelf_limit : ℕ
  pub session_ttl : ℕ
  pub password_reset_enabled : Bool

pub record GeneralRow : Type 0 where
  pub site_name : Text
  pub public_url : Text
  pub cover_width : ℕ
  pub page_size : ℕ
  pub shelf_limit : ℕ
  pub session_ttl_seconds : ℕ
  pub password_reset_enabled : ℕ

pub record SettingsDb : Type 0 where
  pub smtp_settings : Option MailSettings
  pub integration_settings : Option IntegrationRow
  pub kepub_settings : Option (ℕ × ℕ)
  pub general_settings : Option GeneralRow
  pub bootstrap_settings : Option Text

abbrev pub bool_to_int : Bool → ℕ
bool_to_int b = if b then 1 else 0

-- n != 0
abbrev pub is_set : ℕ → Bool
is_set n = not (n == 0)

abbrev pub second : ℕ
second = 1000000000

unfoldable pub get_smtp_settings : SettingsDb → MailSettings
get_smtp_settings d = elim d.smtp_settings [
  | none ↦ record {
    host = [];
    port = 0;
    encryption = [];
    username = [];
    password = [];
    from_name = [];
    from_address = [];
  }
  | some m ↦ m
]

unfoldable pub save_smtp_settings : MailSettings → SettingsDb → SettingsDb
save_smtp_settings m d = record d { smtp_settings = some m }

unfoldable pub get_integration_settings : SettingsDb → IntegrationSettings
get_integration_settings d = elim d.integration_settings [
  | none ↦ record {
    hardcover_enabled = false;
    hardcover_token = [];
    chaptarr_enabled = false;
    chaptarr_url = [];
    chaptarr_api_key = [];
    hide_no_chaptarr_match = false;
    hide_no_hardcover_match = false;
    hardcover_overwrite_cover = false;
  }
  | some r ↦ record {
    hardcover_enabled = is_set r.hardcover_enabled;
    hardcover_token = r.hardcover_token;
    chaptarr_enabled = is_set r.chaptarr_enabled;
    chaptarr_url = r.chaptarr_url;
    chaptarr_api_key = r.chaptarr_api_key;
    hide_no_chaptarr_match = is_set r.hide_no_chaptarr_match;
    hide_no_hardcover_match = is_set r.hide_no_hardcover_match;
    hardcover_overwrite_cover = is_set r.hardcover_overwrite_cover;
  }
]

unfoldable pub save_integration_settings : IntegrationSettings → SettingsDb → SettingsDb
save_integration_settings m d = record d {
  integration_settings = some (record {
    hardcover_enabled = bool_to_int m.hardcover_enabled;
    hardcover_token = m.hardcover_token;
    chaptarr_enabled = bool_to_int m.chaptarr_enabled;
    chaptarr_url = m.chaptarr_url;
    chaptarr_api_key = m.chaptarr_api_key;
    hide_no_chaptarr_match = bool_to_int m.hide_no_chaptarr_match;
    hide_no_hardcover_match = bool_to_int m.hide_no_hardcover_match;
    hardcover_overwrite_cover = bool_to_int m.hardcover_overwrite_cover;
  });
}

unfoldable pub get_kepub_settings : SettingsDb → KepubSettings
get_kepub_settings d = elim d.kepub_settings [
  | none ↦ record { enabled = true; write_calibre_metadata = false }
  | some (enabled, write) ↦ record {
    enabled = is_set enabled;
    write_calibre_metadata = is_set write;
  }
]

unfoldable pub save_kepub_settings : KepubSettings → SettingsDb → SettingsDb
save_kepub_settings m d = record d {
  kepub_settings = some (bool_to_int m.enabled, bool_to_int m.write_calibre_metadata);
}

unfoldable pub get_general_settings : SettingsDb → GeneralSettings
get_general_settings d = elim d.general_settings [
  | none ↦ record {
    site_name = [];
    public_url = [];
    cover_width = 0;
    page_size = 0;
    shelf_limit = 0;
    session_ttl = 0;
    password_reset_enabled = false;
  }
  | some r ↦ record {
    site_name = r.site_name;
    public_url = r.public_url;
    cover_width = r.cover_width;
    page_size = r.page_size;
    shelf_limit = r.shelf_limit;
    session_ttl = r.session_ttl_seconds * second;
    password_reset_enabled = is_set r.password_reset_enabled;
  }
]

unfoldable pub save_general_settings : GeneralSettings → SettingsDb → SettingsDb
save_general_settings m d = record d {
  general_settings = some (record {
    site_name = m.site_name;
    public_url = m.public_url;
    cover_width = m.cover_width;
    page_size = m.page_size;
    shelf_limit = m.shelf_limit;
    session_ttl_seconds = m.session_ttl / second;
    password_reset_enabled = bool_to_int m.password_reset_enabled;
  });
}

-- The secret that is kept, or none where the row is missing or empty.
abbrev pub kept_secret : Option Text → Option Text
kept_secret none = none
kept_secret (some secret) = if is_empty secret then none else some secret

-- `drawn` is what randomValue makes of 32 random bytes.
unfoldable pub session_secret :
    Option Text → SettingsDb → Result UsersError (Text × Bool) × SettingsDb
session_secret drawn d = elim (kept_secret d.bootstrap_settings) [
  | some secret ↦ (ok (secret, false), d)
  | none ↦ elim drawn [
    | none ↦ (err random_failed, d)
    | some secret ↦ (ok (secret, true), record d { bootstrap_settings = some secret })
  ]
]

flag_kept : (b : Bool) → is_set (bool_to_int b) ≡ b
flag_kept true = refl
flag_kept false = refl

-- Settings that are saved are loaded again as they were, but for a session lifetime, of which the
-- part below a second is lost.
pub save-get_settings :
    (mail : MailSettings) (integration : IntegrationSettings) (kepub : KepubSettings)
    (general : GeneralSettings) (d : SettingsDb)
    → let e = save_general_settings general (
        save_kepub_settings kepub
          (save_integration_settings integration (save_smtp_settings mail d))) in
      (get_smtp_settings e ≡ mail)
      × (get_integration_settings e ≡ integration)
      × (get_kepub_settings e ≡ kepub)
      × (get_general_settings e
          ≡ record general { session_ttl = general.session_ttl / second * second })
unfolding get_smtp_settings save_smtp_settings get_integration_settings save_integration_settings
    get_kepub_settings save_kepub_settings get_general_settings save_general_settings
save-get_settings mail integration kepub general d = (
  refl,
  rw
      (
        flag_kept integration.hardcover_enabled,
        flag_kept integration.chaptarr_enabled,
        flag_kept integration.hide_no_chaptarr_match,
        flag_kept integration.hide_no_hardcover_match,
        flag_kept integration.hardcover_overwrite_cover,
      )
      refl,
  rw (flag_kept kepub.enabled, flag_kept kepub.write_calibre_metadata) refl,
  rw (flag_kept general.password_reset_enabled) refl,
)

-- The session secret is drawn once: whatever the random source gives later, the secret of the first
-- successful call is the one of every later call, if it is not empty.
pub session_secret_stable :
    (drawn later : Option Text) (d : SettingsDb) (secret : Text) (created : Bool)
    → (session_secret drawn d).0 ≡ ok (secret, created)
    → is_empty secret ≡ false
    → session_secret later (session_secret drawn d).1
      ≡ (ok (secret, false), (session_secret drawn d).1)
unfolding session_secret
session_secret_stable drawn later d secret created done given =
    elim (Option-cases (kept_secret d.bootstrap_settings)) [
      | inr (old, kept) ↦ ground (arith, kept, done)
      | inl none_kept ↦ elim (Option-cases drawn) [
        | inl failed ↦ absurd (ground (arith, none_kept, failed, done))
        | inr (new, given_new) ↦ ground (arith, none_kept, given_new, done, given)
      ]
    ]
