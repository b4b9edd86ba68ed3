-- ===== src/Config/Tests.antt =====
-- Configurations that pass validation and that do not.
use flow_proxy.Base.{
  ◌≡◌, ◌↔◌, refl, true, false, [], ◌∷◌, codes, text_eq, lookup, is_blank, ok, err,
}
use flow_proxy.Json.{Json, null, str, arr, obj, nil, cons, end, field}
use flow_proxy.Config.{validate_single_config, load_secrets, not_found}
use flow_proxy.Config.Validation.{
  IsUsable, IsLoaded, IsDocumented, validate_single_config_iff, load_secrets_iff,
  load_secrets_raises,
}

abbrev pub usable : Json
usable = obj (
    field (codes "name") (str (codes "first")) (
      field (codes "clientId") (str (codes "id")) (
        field (codes "clientSecret") (str (codes "key"))
          (field (codes "tenant") (str (codes "t")) end))))

abbrev blank_tenant : Json
blank_tenant = obj (
    field (codes "clientId") (str (codes "id")) (
      field (codes "clientSecret") (str (codes "key"))
        (field (codes "tenant") (str (codes "  ")) end)))

rejects_blank : (validate_single_config blank_tenant).0 ≡ false
unfolding validate_single_config lookup is_blank
rejects_blank = refl

accepts : (validate_single_config usable).0 ≡ true
unfolding validate_single_config lookup is_blank
accepts = refl

pub usable-IsUsable : IsUsable usable
usable-IsUsable = (validate_single_config_iff usable).0 accepts

load_secrets_iff_example :
    (load_secrets (ok true) (ok (arr (cons usable nil))) ≡ ok (usable ∷ []))
    ↔ IsLoaded (ok true) (ok (arr (cons usable nil))) (usable ∷ [])
load_secrets_iff_example = load_secrets_iff (ok true) (ok (arr (cons usable nil))) (usable ∷ [])

missing_file : load_secrets (ok false) (ok null) ≡ err not_found
unfolding load_secrets
missing_file = refl

load_secrets_raises_example : IsDocumented not_found
load_secrets_raises_example = load_secrets_raises (ok false) (ok null) not_found missing_file
