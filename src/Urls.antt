-- ===== src/Urls.antt =====
-- What the code uses of net/url: url.Parse and URL.String are arguments, over the fields of a URL
-- that the code reads or sets.
pub mod Checks
use k8s_lb_controller.Prelude.{
  String, Bool, not, ◌||◌, List, Option, none, some, Result, ok, err, ◌==◌, string_eq,
  if◌then◌else◌, ◌≡◌,
}

-- `user` has the user information, and `rest` what the code never looks at.
pub record Url : Type 0 where
  pub scheme : String
  pub user : Option String
  pub host : String
  pub path : String
  pub raw_query : String
  pub fragment : String
  pub rest : List String

pub record UrlLibrary : Type 0 where
  pub parse : String → Option Url
  pub show : Url → String

pub data UrlError : Type 0 where
  not_a_url : UrlError
  not_absolute : UrlError
  bad_scheme : UrlError

-- The checks of NewProvider and of dataplaneAPIURLFromEnv on a URL that they have parsed.
abbrev pub base_url : Option Url → Result UrlError Url
base_url none = err not_a_url
base_url (some u) =
    if u.scheme == "" || u.host == ""
    then err not_absolute
    else if not (u.scheme == "http" || u.scheme == "https")
    then err bad_scheme
    else ok u
