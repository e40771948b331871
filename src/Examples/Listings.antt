-- ===== src/Examples/Listings.antt =====
-- A listing that meets the rules of a marketplace.
use cax_commerce_operations.Prelude.{◌≡◌, ◌↔◌, refl, true, [], ◌∷◌, map}
use cax_commerce_operations.Persistence.Json.{Json}
use cax_commerce_operations.Integrations.Marketplaces.{
  GeneratedListing, MarketplaceListingRequirements, validate,
}
use cax_commerce_operations.Integrations.Marketplaces.Rules.{Meets, validate_exact}

abbrev requirements : MarketplaceListingRequirements
requirements = record {
  marketplace = "amazon";
  title_max_length = 20;
  bullet_min_count = 1;
  bullet_max_count = 2;
  bullet_max_length = 12;
  description_max_length = 30;
  keyword_max_count = 2;
  keyword_max_length = 8;
  required_attributes = "colour" ∷ [];
  minimum_required_images = 1;
  minimum_price = 100;
  generation_guidance = [];
}

abbrev lamp : GeneratedListing
lamp = record {
  title = "Desk lamp";
  bullet_points = "Bright" ∷ "Small" ∷ [];
  description = "A lamp for a desk";
  search_terms = "lamp" ∷ [];
  category_suggestion = "lighting";
  product_attributes = ("colour", Json.text "red") ∷ [];
  sku = "L-1";
  proposed_price = 150000;
  image_requirements = record { image_type = "main"; description = "Front"; required = true } ∷ [];
}

-- A listing without the colour, and for another item.
abbrev wrong : GeneratedListing
wrong = record lamp { product_attributes = []; sku = "L-2" }

two_issues :
    (map (λ i. i.code) (validate requirements wrong "L-1"))
    ≡ "sku_mismatch" ∷ "required_attribute" ∷ []
unfolding validate
two_issues = refl

no_issues : validate requirements lamp "L-1" ≡ []
unfolding validate
no_issues = refl

validate_exact_example : (validate requirements lamp "L-1" ≡ []) ↔ Meets requirements lamp "L-1"
validate_exact_example = validate_exact requirements lamp "L-1"
