-- ===== src/Config/SqlServer.antt =====
-- `SqlServerConfig::validate` and the two encryption tests.
use weighing_data_sync.Prelude.{
  ◌≡◌, Bool, true, false, ◌&&◌, ◌||◌, Text, codes, text_eq, text_eq_iff, is_empty, arith, map, refl,
}
use weighing_data_sync.Anyhow.{Error, msg, Result, ok, err, ◌>>◌}
use weighing_data_sync.Text.{trim, to_lower, eq_ignore_ascii_case}
use weighing_data_sync.Config.Sections.{SqlServerConfig}
use weighing_data_sync.Config.Defaults.{placeholder_host, placeholder_password}

-- `bail!` if the test holds.
abbrev bail_if : Bool → Text → Result Error (Unit {0})
bail_if true t = err (msg t)
bail_if false t = ok tt

unfoldable pub validate : SqlServerConfig → Result Error (Unit {0})
validate cfg = do
  bail_if (is_empty (trim cfg.host) || text_eq cfg.host placeholder_host)
      (codes "SQL Server host is not configured; set [sqlserver].host or WDS__SQLSERVER__HOST")
  bail_if (is_empty (trim cfg.username)) (
      codes
        "SQL Server username is not configured; set [sqlserver].username or WDS__SQLSERVER__USERNAME")
  bail_if (is_empty cfg.password || text_eq cfg.password placeholder_password) (
      codes
        "SQL Server password is not configured; set [sqlserver].password or WDS__SQLSERVER__PASSWORD")
  ok tt

unfoldable pub is_plaintext : SqlServerConfig → Bool
is_plaintext cfg =
    eq_ignore_ascii_case cfg.encryption (codes "not_supported")
    || eq_ignore_ascii_case cfg.encryption (codes "none")
    || eq_ignore_ascii_case cfg.encryption (codes "plaintext")

unfoldable pub is_required_encryption : SqlServerConfig → Bool
is_required_encryption cfg =
    eq_ignore_ascii_case cfg.encryption (codes "required")
    || eq_ignore_ascii_case cfg.encryption (codes "true")
    || eq_ignore_ascii_case cfg.encryption (codes "on")

-- One text is not two different ones.
not_both :
    (e x y : Text)
    → text_eq (map to_lower x) (map to_lower y) ≡ false
    → (eq_ignore_ascii_case e x && eq_ignore_ascii_case e y) ≡ false
unfolding eq_ignore_ascii_case
not_both e x y differ = ground (
  arith,
  text_eq_iff (map to_lower e) (map to_lower x),
  text_eq_iff (map to_lower e) (map to_lower y),
  text_eq_iff (map to_lower x) (map to_lower y),
)

-- No setting of the encryption asks for both plaintext and mandatory encryption.
pub plaintext_or_required :
    (cfg : SqlServerConfig) → (is_plaintext cfg && is_required_encryption cfg) ≡ false
unfolding is_plaintext is_required_encryption to_lower text_eq
plaintext_or_required cfg =
    let e = cfg.encryption in
    ground (
      arith,
      not_both e (codes "not_supported") (codes "required") refl,
      not_both e (codes "not_supported") (codes "true") refl,
      not_both e (codes "not_supported") (codes "on") refl,
      not_both e (codes "none") (codes "required") refl,
      not_both e (codes "none") (codes "true") refl,
      not_both e (codes "none") (codes "on") refl,
      not_both e (codes "plaintext") (codes "required") refl,
      not_both e (codes "plaintext") (codes "true") refl,
      not_both e (codes "plaintext") (codes "on") refl,
    )
