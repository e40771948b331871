-- ===== src/Integrations/Marketplaces/Rules.antt =====
-- Which listings have no issue.
use Prim.Native.String.{count as text_length}
use cax_commerce_operations.Prelude.{
  ℕ, ◌+◌, ◌≤◌, ◌≡◌, ◌↔◌, refl, String, Bool, true, false, ◌&&◌, List, [], ◌∷◌, ◌++◌, ◌==◌,
  Eq-string, arith, All, leb, length,
}
use cax_commerce_operations.Persistence.Json.{Object, field}
use cax_commerce_operations.Integrations.Marketplaces.{
  GeneratedListing, MarketplaceListingRequirements, IssueField, ValidationIssue, issue_unless,
  max_length, max_lengths, is_given, missing_attributes, joined, issues_of, required_images,
  validate,
}

-- What a marketplace asks for.
pub record Meets (r : MarketplaceListingRequirements) (l : GeneratedListing) (sku : String)
    : Type 0 where
  pub title : text_length l.title ≤ r.title_max_length
  pub few_bullets : r.bullet_min_count ≤ length l.bullet_points
  pub many_bullets : length l.bullet_points ≤ r.bullet_max_count
  pub bullets : All (λ t. text_length t ≤ r.bullet_max_length) l.bullet_points
  pub description : text_length l.description ≤ r.description_max_length
  pub many_keywords : length l.search_terms ≤ r.keyword_max_count
  pub keywords : All (λ t. text_length t ≤ r.keyword_max_length) l.search_terms
  pub same_sku : l.sku ≡ sku
  pub price : r.minimum_price ≤ l.proposed_price
  pub attributes :
      All (λ name. is_given (field name l.product_attributes) ≡ true) r.required_attributes
  pub images : r.minimum_required_images ≤ required_images l.image_requirements

append-nil_iff : (a b : List ValidationIssue) → (a ++ b ≡ []) ↔ ((a ≡ []) × (b ≡ []))
append-nil_iff [] b = (λ h. (refl, h), λ h. h.1)
append-nil_iff (x ∷ a) b = (λ h. absurd (ground (arith, h)), λ h. absurd (ground (arith, h.0)))

issue_unless_iff :
    (b : Bool) (code : String) (name : IssueField) → (issue_unless b code name ≡ []) ↔ (b ≡ true)
issue_unless_iff true code name = (λ h. refl, λ h. refl)
issue_unless_iff false code name =
    (λ h. absurd (ground (arith, h)), λ h. absurd (ground (arith, h)))

joined-nil_iff : (xs : List (List ValidationIssue)) → (joined xs ≡ []) ↔ All (λ x. x ≡ []) xs
unfolding joined
joined-nil_iff [] = (λ h. tt, λ h. refl)
joined-nil_iff (x ∷ xs) =
    let rest = joined-nil_iff xs in
    let both = append-nil_iff x (joined xs) in
    (λ h. let p = both.0 h in (p.0, rest.0 p.1), λ h. both.1 (h.0, rest.1 h.1))

max_lengths_iff :
    (name : String) (i : ℕ) (texts : List String) (maximum : ℕ)
    → (max_lengths name i texts maximum ≡ []) ↔ All (λ t. text_length t ≤ maximum) texts
unfolding max_lengths
max_lengths_iff name i [] maximum = (λ h. tt, λ h. refl)
max_lengths_iff name i (t ∷ texts) maximum =
    let rest = max_lengths_iff name (i + 1) texts maximum in
    let one =
      issue_unless_iff (leb (text_length t) maximum) "max_length" (IssueField.item name i) in
    let both =
      append-nil_iff (max_length (IssueField.item name i) t maximum)
        (max_lengths name (i + 1) texts maximum) in
    (
      λ h. let p = both.0 h in (ground (arith, one.0 p.0), rest.0 p.1),
      λ h. both.1 (one.1 (ground (arith, h.0)), rest.1 h.1),
    )

missing_attributes_iff :
    (attributes : Object) (names : List String)
    → (missing_attributes attributes names ≡ [])
      ↔ All (λ name. is_given (field name attributes) ≡ true) names
unfolding missing_attributes
missing_attributes_iff attributes [] = (λ h. tt, λ h. refl)
missing_attributes_iff attributes (name ∷ names) =
    let rest = missing_attributes_iff attributes names in
    let one =
      issue_unless_iff (is_given (field name attributes)) "required_attribute"
        (IssueField.attribute name) in
    let both =
      append-nil_iff
        (issue_unless (is_given (field name attributes)) "required_attribute"
          (IssueField.attribute name))
        (missing_attributes attributes names) in
    (λ h. let p = both.0 h in (one.0 p.0, rest.0 p.1), λ h. both.1 (one.1 h.0, rest.1 h.1))

no_issue :
    (r : MarketplaceListingRequirements) (l : GeneratedListing) (sku : String)
    → validate r l sku ≡ []
    → Meets r l sku
unfolding validate
no_issue r l sku h =
    let (
      title,
      (
        count,
        (
          bullets,
          (
            description,
            (keyword_count, (keywords, (same_sku, (price, (attributes, (images, _)))))),
          ),
        ),
      ),
    ) =
      (joined-nil_iff (issues_of r l sku)).0 h in
    let counted =
      (issue_unless_iff
          (leb r.bullet_min_count (length l.bullet_points)
            && leb (length l.bullet_points) r.bullet_max_count)
          "bullet_count" (IssueField.whole "bullet_points")).0
        count in
    record {
      title = ground (
        arith,
        (issue_unless_iff (leb (text_length l.title) r.title_max_length) "max_length"
              (IssueField.whole "title")).0
            title,
      );
      few_bullets = ground (arith, counted);
      many_bullets = ground (arith, counted);
      bullets = (max_lengths_iff "bullet_points" 0 l.bullet_points r.bullet_max_length).0 bullets;
      description = ground (
        arith,
        (issue_unless_iff (leb (text_length l.description) r.description_max_length) "max_length"
              (IssueField.whole "description")).0
            description,
      );
      many_keywords = ground (
        arith,
        (issue_unless_iff (leb (length l.search_terms) r.keyword_max_count) "keyword_count"
              (IssueField.whole "search_terms")).0
            keyword_count,
      );
      keywords = (max_lengths_iff "search_terms" 0 l.search_terms r.keyword_max_length).0 keywords;
      same_sku =
          (Eq-string.beq_iff l.sku sku).0
            ((issue_unless_iff (l.sku == sku) "sku_mismatch" (IssueField.whole "sku")).0 same_sku);
      price = ground (
        arith,
        (issue_unless_iff (leb r.minimum_price l.proposed_price) "price_below_marketplace_minimum"
              (IssueField.whole "proposed_price")).0
            price,
      );
      attributes = (missing_attributes_iff l.product_attributes r.required_attributes).0 attributes;
      images = ground (
        arith,
        (issue_unless_iff (leb r.minimum_required_images (required_images l.image_requirements))
              "image_count" (IssueField.whole "image_requirements")).0
            images,
      );
    }

issue_free :
    (r : MarketplaceListingRequirements) (l : GeneratedListing) (sku : String)
    → Meets r l sku
    → validate r l sku ≡ []
unfolding validate
issue_free r l sku m = (joined-nil_iff (issues_of r l sku)).1 (
  (issue_unless_iff (leb (text_length l.title) r.title_max_length) "max_length"
        (IssueField.whole "title")).1
      (ground (arith, m.title)),
  (
    (issue_unless_iff
          (leb r.bullet_min_count (length l.bullet_points)
            && leb (length l.bullet_points) r.bullet_max_count)
          "bullet_count" (IssueField.whole "bullet_points")).1
        (ground (arith, m.few_bullets, m.many_bullets)),
    (
      (max_lengths_iff "bullet_points" 0 l.bullet_points r.bullet_max_length).1 m.bullets,
      (
        (issue_unless_iff (leb (text_length l.description) r.description_max_length) "max_length"
              (IssueField.whole "description")).1
            (ground (arith, m.description)),
        (
          (issue_unless_iff (leb (length l.search_terms) r.keyword_max_count) "keyword_count"
                (IssueField.whole "search_terms")).1
              (ground (arith, m.many_keywords)),
          (
            (max_lengths_iff "search_terms" 0 l.search_terms r.keyword_max_length).1 m.keywords,
            (
              (issue_unless_iff (l.sku == sku) "sku_mismatch" (IssueField.whole "sku")).1
                  ((Eq-string.beq_iff l.sku sku).1 m.same_sku),
              (
                (issue_unless_iff (leb r.minimum_price l.proposed_price)
                      "price_below_marketplace_minimum" (IssueField.whole "proposed_price")).1
                    (ground (arith, m.price)),
                (
                  (missing_attributes_iff l.product_attributes r.required_attributes).1
                      m.attributes,
                  (
                    (issue_unless_iff
                          (leb r.minimum_required_images (required_images l.image_requirements))
                          "image_count" (IssueField.whole "image_requirements")).1
                        (ground (arith, m.images)),
                    tt,
                  ),
                ),
              ),
            ),
          ),
        ),
      ),
    ),
  ),
)

-- A generated listing has no issue exactly when it meets every rule of the marketplace: its texts
-- are short enough, it has as many bullet points, keywords and images as are asked for, the SKU of
-- the item, a price of at least the minimum, and every required attribute.
pub validate_exact :
    (r : MarketplaceListingRequirements) (l : GeneratedListing) (sku : String)
    → (validate r l sku ≡ []) ↔ Meets r l sku
validate_exact r l sku = (no_issue r l sku, issue_free r l sku)
