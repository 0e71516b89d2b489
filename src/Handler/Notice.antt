-- ===== src/Handler/Notice.antt =====
-- `NoticeNodeHandler`, a capability that completes by itself.
use Prim.Native.String.{◌++◌ as text_append}
use filum_reforge.Base.{false, [], if◌then◌else◌}
use filum_reforge.Value.{Fields, end}
use filum_reforge.Errors.{Result, ok, raise}
use filum_reforge.Handler.Defs.{
  notice, activated, completed, assigned, done, waiting, succeeded, Action, do_complete,
  action_value, CapabilityContext, CapabilityResult, Handler, operation_error, can_retry,
}

unfoldable pub activate_notice : CapabilityContext → CapabilityResult
activate_notice context = record {
  capability_key = "notice";
  outcome = waiting;
  engine_state = activated;
  business_state = assigned;
  result = end;
  diagnostics = end;
  side_effects = [];
}

unfoldable pub command_notice : CapabilityContext → Action → Fields → Result CapabilityResult
command_notice context do_complete payload = ok (record {
  capability_key = "notice";
  outcome = succeeded;
  engine_state = completed;
  business_state = done;
  result = payload;
  diagnostics = end;
  side_effects = [];
})
command_notice context action payload =
    raise (
      operation_error (text_append "Notice Handler 不支持命令：" (text_append (action_value action) "。")))

unfoldable pub retry_notice : CapabilityContext → Result CapabilityResult
retry_notice context =
    if can_retry context.engine_state
    then ok (activate_notice context)
    else raise (operation_error "Notice 只有 FAILED/SUSPENDED 状态可以重试。")

unfoldable pub notice_handler : Handler
notice_handler = record {
  capability_key = "notice";
  node_type = notice;
  interruptible = false;
  compensation = "none";
  declared_side_effects = [];
  validate_definition = λ config. [];
  activate = activate_notice;
  command = command_notice;
  cancel = λ context. raise (operation_error "Notice 为自动能力，不支持人工取消。");
  retry = retry_notice;
}
