-- ===== src/ServiceIdentity/Valid.antt =====
-- What an identity that `build` returns looks like.
use mathlib.Core.Option
use infra.Prelude.{String, ◌≡◌, true, ◌||◌, Option, some, arith, str_eq}
use infra.Prelude.Text.{or_text, strip, split_once, replace_char}
use infra.ServiceIdentity.{
  ServiceIdentity, matches_service_id, matches_token, matches_sha40, canonical_token, build,
}

-- The shape of every field.
pub record IsCanonical (identity : ServiceIdentity) : Type 0 where
  pub service_id : matches_service_id identity.service_id ≡ true
  pub environment : matches_token identity.environment ≡ true
  pub component : matches_token identity.component ≡ true
  pub service_name : matches_token identity.service_name ≡ true
  pub iac_ref : (str_eq identity.iac_ref "" || matches_sha40 identity.iac_ref) ≡ true

canonical_token-matches :
    (value token : String) → canonical_token value ≡ some token → matches_token token ≡ true
unfolding canonical_token
canonical_token-matches value token e = ground arith

abbrev part_of : String → String
part_of service_id = Option.get_or (split_once b'/' (strip service_id)).1 ""

-- Whatever the caller hands over, an identity that `build` returns has a service id of two parts,
-- tokens for its environment, component and service name, and a full sha or nothing for its IaC ref.
pub build-IsCanonical :
    (service_id environment : String) (component service_name : Option String)
    (version iac_ref : String) (identity : ServiceIdentity)
    → build service_id environment component service_name version iac_ref ≡ some identity
    → IsCanonical identity
unfolding build
build-IsCanonical service_id environment component service_name version iac_ref identity e =
    record {
      service_id = ground arith;
      environment = ground arith;
      component = ground (
        arith,
        canonical_token-matches (or_text (Option.get_or component "") (part_of service_id))
            identity.component,
      );
      service_name = ground (
        arith,
        canonical_token-matches
            (or_text (Option.get_or service_name "") (replace_char b'_' "-" (part_of service_id)))
            identity.service_name,
      );
      iac_ref = ground arith;
    }
