-- ===== src/Config/Validate.antt =====
-- `Validate` of internal/config/config.go. It also fills in fields of the providers; the result is the
-- configuration afterwards or an error.
use proxy_gateway.Prelude.{
  ℕ, String, Bool, true, false, not, ◌&&◌, ◌||◌, List, [], ◌∷◌, none, some, str_eq, if◌then◌else◌,
  pos, lists, any, leb,
}
use Prim.Native.Char.{code}
use proxy_gateway.Prelude.Float.{Float64}
use proxy_gateway.Text.{trim_space, is_empty_text}
use proxy_gateway.Config.{CheckUrlItem, ProviderCfg, default_int, default_text, is_zero}

-- The errors, in the order of the code; the last three are those that only the server has.
pub data Fault : Type 0 where
  blank_check_url provider_unnamed provider_twice type_unsupported tunnel_missing gateway_missing
        ip_pool_missing extract_url_missing free_missing feed_url_missing check_url_missing
        provider_url_blank country_invalid provider_ratio group_unnamed group_twice group_ratio
        region_invalid primary_unknown weight_below_one weight_not_primary backup_unnamed
        backup_ratio backup_unknown account_unnamed account_twice token_missing token_twice
        role_invalid credentials_apart primary_missing weights_sum :
      Fault

pub data Checked (A : Type 0) : Type 0 where
  ok : A → Checked A
  refused : Fault → Checked A

unfoldable pub and_then : {A B : Type 0} → Checked A → (A → Checked B) → Checked B
and_then (ok a) f = f a
and_then (refused e) f = refused e

-- `if b { return error }`
unfoldable pub unless_bad : {A : Type 0} → Bool → Fault → Checked A → Checked A
unless_bad b e r = if b then refused e else r

abbrev pub is_type : String → ProviderCfg → Bool
is_type t p = str_eq p.provider_type t

abbrev pub no_urls : ProviderCfg → Bool
no_urls p = elim p.urls [ [] ↦ true | u ∷ us ↦ false ]

abbrev pub no_items : List CheckUrlItem → Bool
no_items [] = true
no_items (x ∷ xs) = false

abbrev pub is_supported : String → Bool
is_supported t = str_eq t "tunnel" || str_eq t "ip_pool" || str_eq t "sticky" || str_eq t "free"

-- `isISOAlpha2`
abbrev is_ascii_letter : ℕ → Bool
is_ascii_letter c = (leb 97 c && leb c 122) || (leb 65 c && leb c 90)

unfoldable pub is_iso_alpha2 : String → Bool
is_iso_alpha2 String.[] = false
is_iso_alpha2 (String.◌∷◌ c String.[]) = false
is_iso_alpha2 (String.◌∷◌ c (String.◌∷◌ d String.[])) =
    is_ascii_letter (code c) && is_ascii_letter (code d)
is_iso_alpha2 (String.◌∷◌ c (String.◌∷◌ d (String.◌∷◌ e s))) = false

-- `validRegion`
unfoldable pub valid_region : String → Bool
valid_region r = str_eq r "domestic" || str_eq r "overseas" || is_iso_alpha2 r

abbrev pub is_blank_url : CheckUrlItem → Bool
is_blank_url it = is_empty_text (trim_space it.url)

unfoldable pub with_tunnel : ProviderCfg → Checked ProviderCfg
with_tunnel p =
    if is_type "tunnel" p && no_urls p
    then elim p.tunnel [
      | none ↦ refused tunnel_missing
      | some t ↦ unless_bad (str_eq t.gateway "") gateway_missing (
          ok (record p {
            tunnel = some (record t {
              port = default_int (pos 8080) t.port;
              scheme = default_text "http" t.scheme;
            });
          }))
    ]
    else ok p

unfoldable pub with_ip_pool : ProviderCfg → Checked ProviderCfg
with_ip_pool p =
    if (is_type "ip_pool" p || is_type "sticky" p) && no_urls p
    then elim p.ip_pool [
      | none ↦ refused ip_pool_missing
      | some i ↦ unless_bad (str_eq i.extract_url "") extract_url_missing (
          ok (record p {
            ip_pool = some (record i {
              format = default_text "raw" i.format;
              refresh_seconds = default_int (pos 60) i.refresh_seconds;
              expire_seconds = default_int (pos 600) i.expire_seconds;
            });
          }))
    ]
    else ok p

unfoldable pub with_sticky : ProviderCfg → ProviderCfg
with_sticky p =
    if is_type "sticky" p && is_zero p.sticky_seconds
    then record p { sticky_seconds = pos 60 }
    else p

unfoldable pub with_free : ProviderCfg → Checked ProviderCfg
with_free p =
    if is_type "free" p
    then elim p.free [
      | none ↦ refused free_missing
      | some f ↦ unless_bad (str_eq f.feed_url "") feed_url_missing (
          unless_bad (str_eq p.check_url "" && no_items p.check_urls) check_url_missing (
            ok (record p {
              free = some (record f {
                max_speed_ms = default_int (pos 3000) f.max_speed_ms;
                delete_latency_ms = default_int (pos 3000) f.delete_latency_ms;
                refresh_seconds = default_int (pos 60) f.refresh_seconds;
              });
            })))
    ]
    else ok p

module _ ⦃fl : Float64⦄ where
  abbrev pub bad_ratio : ℕ → Bool
  bad_ratio r = fl.less r fl.zero_f || fl.less fl.one_f r

  -- The checks that follow for every type.
  unfoldable pub check_rest : ProviderCfg → Checked ProviderCfg
  check_rest p = unless_bad (any is_blank_url p.check_urls) provider_url_blank (
      unless_bad (not (str_eq p.country "") && not (is_iso_alpha2 p.country)) country_invalid (
        unless_bad (bad_ratio p.min_alive_ratio) provider_ratio
          (ok (record p { weight = default_int (pos 1) p.weight }))))

  -- One provider, for the names of those before it.
  unfoldable pub check_provider : List String → ProviderCfg → Checked ProviderCfg
  check_provider seen p = unless_bad (str_eq p.name "") provider_unnamed (
      unless_bad (lists p.name seen) provider_twice (
        unless_bad (not (is_supported p.provider_type)) type_unsupported (
          and_then (with_tunnel p) (λ a.
            and_then (with_ip_pool a) (λ b. and_then (with_free (with_sticky b)) check_rest)))))

  unfoldable pub check_providers : List String → List ProviderCfg → Checked (List ProviderCfg)
  check_providers seen [] = ok []
  check_providers seen (p ∷ ps) =
      and_then (check_provider seen p)
        (λ q. and_then (check_providers (p.name ∷ seen) ps) (λ qs. ok (q ∷ qs)))
