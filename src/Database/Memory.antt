-- ===== src/Database/Memory.antt =====
-- A database that holds its tables in memory and never fails: it meets the interface.
use amazon_ai_product_image.Base.{refl, inl}
use amazon_ai_product_image.Database.{Database, tables_after, returned}

abbrev pub memory : {T E : Type 0} (failure : E) → Database T E failure
memory {T} {E} failure = record {
  Store = T;
  tables = λ s. s;
  transaction = λ body s. (returned (body s), tables_after s (body s));
  transaction_cases = λ body s. inl (refl, refl);
}
