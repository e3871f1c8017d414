-- ===== src/Redaction.antt =====
-- internal/redaction/redact.go. The regular expressions are compiled by package `regexp`: what each
-- replacement does to a text is a parameter.
use pooly_sentinel.Prelude.{Text, text, is_empty, if◌then◌else◌}

-- `Replacement`.
unfoldable pub replacement : Text
unfolding text
replacement = text "[REDACTED]"

-- One field for each `ReplaceAllString` call of `Redact`.
pub record Patterns : Type 0 where
  pub replace_private_key : Text → Text
  pub replace_discord_webhook : Text → Text
  pub replace_generic_webhook_token_url : Text → Text
  pub replace_authorized_key : Text → Text
  pub replace_authorization : Text → Text
  pub replace_query_secret : Text → Text
  pub replace_key_value : Text → Text

module _ (p : Patterns) where
  unfoldable pub redact : Text → Text
  redact s =
      if is_empty s
      then s
      else p.replace_key_value (
          p.replace_query_secret (
            p.replace_authorization (
              p.replace_authorized_key (
                p.replace_generic_webhook_token_url
                  (p.replace_discord_webhook (p.replace_private_key s))))))
