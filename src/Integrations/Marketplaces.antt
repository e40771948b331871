-- ===== src/Integrations/Marketplaces.antt =====
-- src/commerce_operations/integrations/marketplaces/listing.py and agents/listing_models.py: the
-- rules of a marketplace for a generated listing, and the registry of adapters. Prices are in
-- ten-thousandths. The message texts of issues are left out, and so are the limits on empty texts.
pub mod Rules
use Prim.Native.String.{count as text_length}
use cax_commerce_operations.Prelude.{
  ℕ, ◌+◌, String, Bool, true, false, not, ◌&&◌, ◌||◌, Option, none, some, List, [], ◌∷◌, ◌++◌, ◌==◌,
  Eq-string, find, filter, is_some, leb, ltb, length, if◌then◌else◌,
}
use cax_commerce_operations.Errors.{Error, Result, ok, err}
use cax_commerce_operations.Persistence.Json.{Json, Object, field}
use cax_commerce_operations.Persistence.Tables.{add}

pub record ImageRequirement : Type 0 where
  pub image_type : String
  pub description : String
  pub required : Bool

pub record GeneratedListing : Type 0 where
  pub title : String
  pub bullet_points : List String
  pub description : String
  pub search_terms : List String
  pub category_suggestion : String
  pub product_attributes : Object
  pub sku : String
  pub proposed_price : ℕ
  pub image_requirements : List ImageRequirement

-- The field of an issue: a name, a name and an index, or a product attribute.
pub data IssueField : Type 0 where
  whole : String → IssueField
  item : String → ℕ → IssueField
  attribute : String → IssueField

pub record ValidationIssue : Type 0 where
  pub code : String
  pub field : IssueField

pub record MarketplaceListingRequirements : Type 0 where
  pub marketplace : String
  pub title_max_length : ℕ
  pub bullet_min_count : ℕ
  pub bullet_max_count : ℕ
  pub bullet_max_length : ℕ
  pub description_max_length : ℕ
  pub keyword_max_count : ℕ
  pub keyword_max_length : ℕ
  pub required_attributes : List String
  pub minimum_required_images : ℕ
  pub minimum_price : ℕ
  pub generation_guidance : List String

-- One issue, if the test fails.
abbrev pub issue_unless : Bool → String → IssueField → List ValidationIssue
issue_unless true code name = []
issue_unless false code name = record { code = code; field = name } ∷ []

-- `_max_length`
abbrev pub max_length : IssueField → String → ℕ → List ValidationIssue
max_length name value maximum = issue_unless (leb (text_length value) maximum) "max_length" name

-- The loop over the texts of a field, from the index `i`.
unfoldable pub max_lengths : String → ℕ → List String → ℕ → List ValidationIssue
max_lengths name i [] maximum = []
max_lengths name i (text ∷ texts) maximum =
    max_length (IssueField.item name i) text maximum ++ max_lengths name (i + 1) texts maximum

-- `listing.product_attributes.get(attribute) in (None, "")`, negated
abbrev pub is_given : Option Json → Bool
is_given none = false
is_given (some Json.null) = false
is_given (some (Json.text t)) = not (t == "")
is_given (some _) = true

unfoldable pub missing_attributes : Object → List String → List ValidationIssue
missing_attributes attributes [] = []
missing_attributes attributes (name ∷ names) =
    issue_unless (is_given (field name attributes)) "required_attribute" (IssueField.attribute name)
    ++ missing_attributes attributes names

abbrev pub required_images : List ImageRequirement → ℕ
required_images images = length (filter (λ i. i.required) images)

-- The lists of issues, one after the other.
unfoldable pub joined : List (List ValidationIssue) → List ValidationIssue
joined [] = []
joined (x ∷ xs) = x ++ joined xs

-- The issues of each test of `validate`, in the order of the tests.
abbrev pub issues_of :
    MarketplaceListingRequirements → GeneratedListing → String → List (List ValidationIssue)
issues_of r l expected_sku =
    max_length (IssueField.whole "title") l.title r.title_max_length
    ∷ issue_unless
        (leb r.bullet_min_count (length l.bullet_points)
          && leb (length l.bullet_points) r.bullet_max_count)
        "bullet_count" (IssueField.whole "bullet_points")
    ∷ max_lengths "bullet_points" 0 l.bullet_points r.bullet_max_length
    ∷ max_length (IssueField.whole "description") l.description r.description_max_length
    ∷ issue_unless (leb (length l.search_terms) r.keyword_max_count) "keyword_count"
        (IssueField.whole "search_terms")
    ∷ max_lengths "search_terms" 0 l.search_terms r.keyword_max_length
    ∷ issue_unless (l.sku == expected_sku) "sku_mismatch" (IssueField.whole "sku")
    ∷ issue_unless (leb r.minimum_price l.proposed_price) "price_below_marketplace_minimum"
        (IssueField.whole "proposed_price")
    ∷ missing_attributes l.product_attributes r.required_attributes
    ∷ issue_unless (leb r.minimum_required_images (required_images l.image_requirements))
        "image_count" (IssueField.whole "image_requirements")
    ∷ []

-- `ConfiguredMarketplaceListingAdapter.validate`
unfoldable pub validate :
    MarketplaceListingRequirements → GeneratedListing → String → List ValidationIssue
unfolding max_lengths missing_attributes joined
validate r l expected_sku = joined (issues_of r l expected_sku)

-- `MarketplaceListingAdapterRegistry`, in the order of registration
abbrev pub AdapterRegistry : Type 0
AdapterRegistry = List MarketplaceListingRequirements

abbrev pub adapter_of : String → AdapterRegistry → Option MarketplaceListingRequirements
adapter_of marketplace = find (λ a. a.marketplace == marketplace)

-- `MarketplaceListingAdapterRegistry.register`
unfoldable pub register_adapter :
    MarketplaceListingRequirements → AdapterRegistry → Result AdapterRegistry
register_adapter adapter adapters =
    if is_some (adapter_of adapter.marketplace adapters)
    then err Error.value_error
    else ok (add adapter adapters)

-- `MarketplaceListingAdapterRegistry.get`
unfoldable pub get_adapter : String → AdapterRegistry → Result MarketplaceListingRequirements
get_adapter marketplace adapters = elim (adapter_of marketplace adapters) [
  | none ↦ err Error.lookup_error
  | some adapter ↦ ok adapter
]
