-- ===== src/Accounting/Tests.antt =====
-- A binding of a portfolio to an account.
use tradeedge.Prelude.{ok, ascii, trim_space, ◌+◌, ◌≡◌, refl, true}
use tradeedge.Accounting.Ingestion.{
  AccountBinding, IngestionDigests, new_account_binding, is_valid_binding,
  new_account_binding-validates,
}

abbrev toy_ingestion : IngestionDigests
toy_ingestion = record {
  binding_checksum = λ p a v t. p + t;
  ingestion_id = λ f c b. ok (f + b);
  progress_checksum = λ p. p.position_revision;
}

abbrev bound : AccountBinding
bound = record {
  portfolio_id = 20;
  account_id = ascii "A1";
  version = ascii "v1";
  valid_from = 100;
  checksum = 120;
}

bound_run : new_account_binding toy_ingestion 20 (ascii "A1") (ascii " v1 ") 100 ≡ ok bound
unfolding new_account_binding trim_space
bound_run = refl

new_account_binding-validates_example : is_valid_binding toy_ingestion bound ≡ true
new_account_binding-validates_example =
    new_account_binding-validates toy_ingestion 20 (ascii "A1") (ascii " v1 ") 100 bound_run
