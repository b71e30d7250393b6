-- ===== src/Ui/Dims.antt =====
-- ui/src/filters.rs: the dimensions that have chips, and the fields that each endpoint knows.
use analytics.Common.{
  Bool, true, false, Option, none, some, List, [], ◌∷◌, Text, codes, text_eq, all, if◌then◌else◌,
  ◌≡◌, refl, eq_of_text_eq, Bool-cases, inl, inr, ◌↔◌, sym, ap, ◌∙◌,
}
use analytics.Filter.Columns.{FieldSet, dashboard, exceptions}
use analytics.Filter.Predicate.{elem}

pub data Dim : Type 0 where
  project source path referrer country language browser version os device : Dim
  utm_source utm_medium utm_campaign app_version event_name : Dim

abbrev pub all_dims : List Dim
all_dims =
    project ∷ source ∷ path ∷ referrer ∷ country ∷ language ∷ browser ∷ version ∷ os ∷ device
    ∷ utm_source ∷ utm_medium ∷ utm_campaign ∷ app_version ∷ event_name ∷ []

unfoldable pub param : Dim → Text
param project = codes "project"
param source = codes "source"
param path = codes "path"
param referrer = codes "referrer"
param country = codes "country"
param language = codes "language"
param browser = codes "browser"
param version = codes "version"
param os = codes "os"
param device = codes "device"
param utm_source = codes "utm_source"
param utm_medium = codes "utm_medium"
param utm_campaign = codes "utm_campaign"
param app_version = codes "app_version"
param event_name = codes "event"

unfoldable pub find_dim : Text → List Dim → Option Dim
unfolding param
find_dim name [] = none
find_dim name (d ∷ ds) =
    let rest = find_dim name ds in if text_eq (param d) name then some d else rest

unfoldable pub from_param : Text → Option Dim
unfolding find_dim
from_param name = find_dim name all_dims

-- `==` on dimensions, which is derived: equal names, as no two dimensions share one.
unfoldable pub same_dim : Dim → Dim → Bool
unfolding param
same_dim d e = text_eq (param d) (param e)

unfoldable pub label : Dim → Text
label project = codes "Project"
label source = codes "Source"
label path = codes "Page"
label referrer = codes "Referrer"
label country = codes "Country"
label language = codes "Language"
label browser = codes "Application"
label version = codes "Version"
label os = codes "OS"
label device = codes "Device"
label utm_source = codes "UTM source"
label utm_medium = codes "UTM medium"
label utm_campaign = codes "UTM campaign"
label app_version = codes "App version"
label event_name = codes "Event"

unfoldable pub absent_label : Dim → Text
absent_label referrer = codes "Direct / none"
absent_label utm_source = codes "None"
absent_label utm_medium = codes "None"
absent_label utm_campaign = codes "None"
absent_label event_name = codes "Unnamed"
absent_label _ = codes "Unknown"

unfoldable pub applies_to_exceptions : Dim → Bool
applies_to_exceptions project = true
applies_to_exceptions source = true
applies_to_exceptions browser = true
applies_to_exceptions version = true
applies_to_exceptions os = true
applies_to_exceptions device = true
applies_to_exceptions app_version = true
applies_to_exceptions _ = false

unfoldable pub applies_to_dashboard : Dim → Bool
applies_to_dashboard app_version = false
applies_to_dashboard _ = true

abbrev pub applies_to : FieldSet → Dim → Bool
applies_to dashboard d = applies_to_dashboard d
applies_to exceptions d = applies_to_exceptions d

abbrev pub exception_fields : List Text
exception_fields =
    codes "project"
    ∷ codes "source"
    ∷ codes "browser"
    ∷ codes "version"
    ∷ codes "os"
    ∷ codes "device"
    ∷ codes "app"
    ∷ codes "app_version"
    ∷ codes "type"
    ∷ codes "message"
    ∷ codes "handled"
    ∷ []

abbrev pub dashboard_fields : List Text
dashboard_fields =
    codes "project"
    ∷ codes "source"
    ∷ codes "path"
    ∷ codes "referrer"
    ∷ codes "country"
    ∷ codes "language"
    ∷ codes "browser"
    ∷ codes "version"
    ∷ codes "os"
    ∷ codes "device"
    ∷ codes "utm_source"
    ∷ codes "utm_medium"
    ∷ codes "utm_campaign"
    ∷ codes "event"
    ∷ []

abbrev pub fields_of : FieldSet → List Text
fields_of dashboard = dashboard_fields
fields_of exceptions = exception_fields

unfoldable pub fields_apply : List Text → List Text → Bool
fields_apply referenced known = all (elem known) referenced

find_dim-param :
    (name : Text) (ds : List Dim) (d : Dim) → find_dim name ds ≡ some d → name ≡ param d
unfolding find_dim
find_dim-param name [] d h = cc
find_dim-param name (e ∷ ds) d h = elim (Bool-cases (text_eq (param e) name)) [
  | inl k ↦ sym (eq_of_text_eq _ _ k) ∙ ap param (cc (rw k at h))
  | inr k ↦ find_dim-param name ds d (rw k at h)
]

from_param-param : (d : Dim) → from_param (param d) ≡ some d
unfolding from_param find_dim param text_eq
from_param-param project = refl
from_param-param source = refl
from_param-param path = refl
from_param-param referrer = refl
from_param-param country = refl
from_param-param language = refl
from_param-param browser = refl
from_param-param version = refl
from_param-param os = refl
from_param-param device = refl
from_param-param utm_source = refl
from_param-param utm_medium = refl
from_param-param utm_campaign = refl
from_param-param app_version = refl
from_param-param event_name = refl

-- from_param answers a dimension for exactly the name of that dimension, so a dimension's name reads
-- back as the dimension, and any other text is no dimension.
pub from_param_iff : (name : Text) (d : Dim) → (from_param name ≡ some d) ↔ (name ≡ param d)
unfolding from_param
from_param_iff name d = (find_dim-param name all_dims d, λ e. ap from_param e ∙ from_param-param d)
