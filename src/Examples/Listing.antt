-- ===== src/Examples/Listing.antt =====
-- The theorems on the list of orders, applied.
use request_system.Common.{ℕ, String, Bool, Option, true, false, some, List, [], ◌∷◌, ◌≡◌, refl, In}
use request_system.Entities.{Order}
use request_system.Errors.{ok}
use request_system.Authz.{Context}
use request_system.Orders.Access.{to_response_dto}
use request_system.Orders.Store.{lift}
use request_system.Orders.Listing.{Filter, Dbms, OrderList, list_reader, get_orders}
use request_system.Orders.Listing.Visible.{Visible, shown, get_orders_refines}
use request_system.Examples.{printer, store, world, directory, request, granted}

abbrev database : Dbms
database = record {
  test = λ c o. true;
  arrange = λ columns rows. rows;
  arrange_In = λ columns rows o. (λ m. m, λ m. m);
}

abbrev everything : Filter
everything = record {
  search = "";
  sort = [];
  filter = [];
  limit = 0;
  offset = 0;
  with_pagination = false;
  include_attachments = true;
}

abbrev permissions : ℕ → Option (List String)
permissions id = some granted

-- Alice has the scope of her own orders: she made the printer's, and has no part in the phone's.
abbrev own_orders : OrderList
own_orders = record { list = to_response_dto printer [] ∷ []; total_count = 1 }

lists :
    (get_orders world directory permissions database request everything false false false store).0
    ≡ ok own_orders
unfolding get_orders request_system.Orders.Store.◌>>=◌ request_system.Authz.can_do
    request_system.Orders.Listing.scope_conditions request_system.Orders.Store.attempt
    request_system.Orders.Listing.narrowing request_system.Orders.Listing.where_clause
lists = refl

get_orders_refines_example :
    (ctx : Context) × (list_reader world directory permissions database request ≡ ok ctx)
    × ((o : Order)
        → In o (shown own_orders)
        → Visible database world directory permissions request everything store ctx false false
            false o)
    × (◌≡◌ {A = Bool} false false
        → (o : Order)
        → Visible database world directory permissions request everything store ctx false false
            false o
        → In o (shown own_orders))
get_orders_refines_example =
    get_orders_refines database world directory permissions request everything store false false
      false own_orders lists
