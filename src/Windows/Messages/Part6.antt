-- ===== src/Windows/Messages/Part6.antt =====
-- Cases of the `switch` of `OutputWindowCallbackMacro`, LeftSupport/LeftSupport/LeftWindows.cpp.
use mathlib.Core.List.{List, [], ◌∷◌}
use left_my_codes.Windows.Messages.Defs.{Case, always}

abbrev pub cases_6 : List Case
cases_6 =
    always "EM_LINESCROLL" "以行为单位使多行编辑控件左右或上下滚动"
    ∷ always "EM_SCROLLCARET" "滚动编辑控件中的caret插入光标,使之可视"
    ∷ always "EM_GETMODIFY" "测试编辑控件的内容是否被改变(它有个内部标记来表明其内容是否被改变)"
    ∷ always "EM_SETMODIFY" "设置或清除编辑控件的改变标志;改变标记表明文本是否被改变(用户改变文本时,会自动设置此标志)"
    ∷ always "EM_GETLINECOUNT" "获取多行编辑控件中的总行数"
    ∷ always "EM_LINEINDEX" "获得多行编辑控件中某行的字符索引"
    ∷ always "EM_SETHANDLE" "设置可被多行编辑控件使用的局部内存的句柄,编辑控件可用此缓冲区存储当前显示的文本,而不必自己分配"
    ∷ always "EM_GETHANDLE" "获取多行编辑控件中当前分配的内存句柄,此句柄是个局部内存句柄"
    ∷ always "EM_GETTHUMB" "取得多行文本编辑控件的滚动框的当前位置(象素)"
    ∷ always "EM_LINELENGTH" "获得编辑控件中的行的长度"
    ∷ always "EM_REPLACESEL" "用指定文本覆盖编辑控件中当前被选中的文本"
    ∷ always "EM_GETLINE" "在编辑控件中获得一行文本"
    ∷ always "EM_LIMITTEXT" "用户在编辑控件中输入文本时的文本长度限制"
    ∷ always "EM_CANUNDO" "确定对编辑控件的操作能否撤销"
    ∷ always "EM_UNDO" "撤销上一次对编辑控件的操作"
    ∷ always "EM_FMTLINES" "设置多行编辑控件中是否包含软回车符"
    ∷ always "EM_LINEFROMCHAR" "获取包含指定字符索引的行的行号(字符索引指从开始到指定字符的字符数)"
    ∷ always "EM_SETTABSTOPS" "在多行编辑控件中设置跳格键的跳幅(控件中文本的任何制表键间会产生一段空白)"
    ∷ always "EM_SETPASSWORDCHAR" "设置或清除编辑控件中密码的替换显示字符"
    ∷ always "EM_EMPTYUNDOBUFFER" "清除控件的撤消缓冲区,使其不能撤消上一次编辑操作"
    ∷ always "EM_GETFIRSTVISIBLELINE" "确定编辑控件中可视的最顶端行的行号"
    ∷ always "EM_SETREADONLY" "设置编辑控件的只读状态"
    ∷ always "EM_SETWORDBREAKPROC" "设置编辑控件的新的断字处理回调函数"
    ∷ always "EM_GETWORDBREAKPROC" "获取编辑控件的新的断字处理回调函数"
    ∷ always "EM_GETPASSWORDCHAR" "获取编辑控件中密码的替换显示字符"
    ∷ always "EM_SETMARGINS" "设置编辑控件的左右边空"
    ∷ always "EM_GETMARGINS" "获取编辑控件的左右边空"
    ∷ always "EM_GETLIMITTEXT" "获取编辑控件中文本的输入长度限制"
    ∷ always "EM_POSFROMCHAR" "获得指定字符索引的左上角的坐标"
    ∷ always "EM_CHARFROMPOS" "获得编辑控件中最靠近指定位置的字符的行和字符索引"
    ∷ always "EM_SETIMESTATUS" "修改编辑控件的IME输入法的属性"
    ∷ always "EM_GETIMESTATUS" "获取编辑控件的IME输入法的属性"
    ∷ always "EN_ERRSPACE" "编辑控件不能为特定请求分配足够的空间的通知消息"
    ∷ always "EN_MAXTEXT" "通知父窗,编辑控件当前输入文本已超过指定字符数(并作截尾处理)"
    ∷ always "EN_HSCROLL" "用户单击了编辑控件的水平滚动条,父窗在屏幕更新之前被通知"
    ∷ always "EN_VSCROLL" "用户单击了编辑控件的垂直滚动条,父窗在屏幕更新之前被通知"
    ∷ always "MCN_GETDAYSTATE" "获取月历控件的日期显示风格(粗体/圈定等),要有MCS_DAYSTATE风格,相关结构:NMDAYSTATE"
    ∷ always "MCN_SELCHANGE" "当前选择项已被改变,相关结构:NMSELCHANGE"
    ∷ always "MCN_SELECT" "在月历控件中选择一个日期,相关结构:NMSELCHANGE"
    ∷ always "NM_RELEASEDCAPTURE" "释放月历控件中鼠标的捕获消息,相关结构:NMHDR"
    ∷ always "DTN_CLOSEUP" "DTP控件中的月历控件将要关闭,相关结构:NMHDR"
    ∷ always "DTN_DATETIMECHANGE" "DTP控件中的内容已发生改变,相关结构:NMDATETIMECHANGE"
    ∷ always "DTN_DROPDOWN" "DTP控件中的月历控件将要显示,相关结构:NMHDR"
    ∷ always "DTN_FORMAT" "DTP控件中的文本需要显示在回调域中,相关结构:NMDATETIMEFORMAT"
    ∷ always "DTN_FORMATQUERY" "DTP控件中的文本显示所需最大尺寸,相关结构:NMDATETIMEFORMATQUERY"
    ∷ always "DTN_USERSTRING" "用户已完成DTP控件的编辑,相关结构:NMDATETIMESTRING"
    ∷ always "DTN_WMKEYDOWN" "用户单击了DTP控件的回调域,相关结构:NMDATETIMEWMKEYDOWN"
    ∷ always "SBN_SIMPLEMODECHANGE" "由于SB_SIMPLE消息导致状态栏简单模式发生改变时发送的通知消息"
    ∷ always "RBN_AUTOSIZE" "当Rebar控件自己自动调整大小时由(用RBS_AUTOSIZE风格创建的)Rebar控件发送"
    ∷ always "RBN_BEGINDRAG" "当用户开始拖动带区时由Rebar控件发送"
    ∷ always "RBN_CHILDSIZE" "当调整带区的子窗口大小时由Rebar控件发送"
    ∷ always "RBN_DELETEDBAND" "在带区已被删除后由Rebar控件发送"
    ∷ always "RBN_DELETINGBAND" "当带区即将被删除时由Rebar控件发送"
    ∷ always "RBN_ENDDRAG" "当用户停止拖动带区时由Rebar控件发送"
    ∷ always "RBN_GETOBJECT" "当对象被拖动到此控件中的带区上由(用RBS_REGISTERDROP风格创建的)Rebar控件发送"
    ∷ always "RBN_HEIGHTCHANGE" "当其高度已被更改时由Rebar控件发送"
    ∷ always "RBN_LAYOUTCHANGED" "当用户更改此控件的带区布局时由Rebar控件发送"
    ∷ always "PSM_APPLY" "应用属性表的新属性,宏:PropSheet_Apply"
    ∷ always "PSM_CANCELTOCLOSE" "使属性表改变确定按钮上的文本为关闭(标志着应用的改变不可被取消),宏:PropSheet_CancelToClose"
    ∷ always "PSM_GETCURRENTPAGEHWND" "获取属性表当前页的窗口句柄,宏:PropSheet_GetCurrentPageHwnd"
    ∷ always "PSM_GETTABCONTROL" "获取属性表中标签控件的句柄,宏:PropSheet_GetTabControl"
    ∷ always "PSM_ISDIALOGMESSAGE" "发送一个消息至属性表对话框,并指明该对话框是否已处理了该消息,宏:PropSheet_IsDialogMessage"
    ∷ always "PSM_PRESSBUTTON" "在属性表中模拟选择某指定按钮,宏:PropSheet_PressButton"
    ∷ always "PSM_QUERYSIBLINGS" "查询属性表的兄弟页,相互传递参数,宏:PropSheet_QuerySiblings"
    ∷ always "PSM_REBOOTSYSTEM" "指明需重启系统以使改变生效(若某页改变了系统配置),宏:PropSheet_RebootSystem"
    ∷ always "PSM_SETCURSELID" "根据页ID选择(激活)属性表中某页,宏:PropSheet_SetCurSelByID"
    ∷ always "PSM_SETFINISHTEXT" "设置属性表中Finish按钮的文本,宏:PropSheet_SetFinishText"
    ∷ always "PSM_SETTITLE" "指定属性表的标题,宏:PropSheet_SetTitle"
    ∷ always "PSM_SETWIZBUTTONS" "使向导属性表中的Back,Next或Finish按钮有效或无效,宏:PropSheet_SetWizButtons"
    ∷ always "PSM_UNCHANGED" "禁止应用按钮,重新初始化属性表,宏:PropSheet_UnChanged"
    ∷ always "PSN_APPLY" "属性页的应用按钮被按下,相关结构:PSHNOTIFY"
    ∷ always "PSN_GETOBJECT" "通知允许属性页进行OLE拖放对象,相关结构:NMOBJECTNOTIFY"
    ∷ always "PSN_HELP" "用户点击了属性页的帮助按扭,相关结构:PSHNOTIFY"
    ∷ always "PSN_KILLACTIVE" "属性页失去焦点(其它属性页获得了焦点或用户点击了确定按钮),相关结构:PSHNOTIFY"
    ∷ always "PSN_QUERYCANCEL" "用户点击了属性页的取消按扭,相关结构:PSHNOTIFY"
    ∷ always "PSN_RESET" "用户点击了取消按扭,属性页将被销毁,相关结构:PSHNOTIFY"
    ∷ always "PSN_SETACTIVE" "某属性页被激活获得焦点,相关结构:PSHNOTIFY"
    ∷ always "PSN_WIZBACK" "用户点击了向导属性表的前一页按钮,相关结构:PSHNOTIFY"
    ∷ always "PSN_WIZFINISH" "用户点击了向导属性表的结束按钮,相关结构:PSHNOTIFY"
    ∷ always "PSN_WIZNEXT" "用户点击了向导属性表的下一页按钮,相关结构:PSHNOTIFY"
    ∷ always "CBEN_BEGINEDIT" "用户激活下拉列表或点击CComboBoxEx控件的编辑框,相关结构:NMHDR"
    ∷ always "CBEN_DELETEITEM" "CComboBoxEx控件的某条目已被删除,相关结构:NMCOMBOBOXEX"
    ∷ always "CBEN_DRAGBEGIN" "用户开始拖动CComboBoxEx控件的编辑框中的条目图像,相关结构:NMCBEDRAGBEGIN"
    ∷ always "CBEN_ENDEDIT" "用户已结束对CComboBoxEx控件的编辑框的操作或选择了下拉列表,相关结构:NMCBEENDEDIT"
    ∷ always "CBEN_GETDISPINFO" "获取CComboBoxEx控件的回调条目的显示信息,相关结构:NMCOMBOBOXEX"
    ∷ always "CBEN_INSERTITEM" "一个新条目已插入到CComboBoxEx控件,相关结构:NMCOMBOBOXEX"
    ∷ always "NM_CHAR" "字符键被处理后由控件发送,相关结构:NMCHAR"
    ∷ always "NM_DBLCLK" "通知父窗:用户在控件上双击了鼠标左键,相关结构:NMHDR"
    ∷ always "NM_HOVER" "用户的鼠标掠过控件,相关结构:NMHDR"
    ∷ always "NM_KEYDOWN" "控件获得键盘焦点并按下某键,相关结构:NMKEY"
    ∷ always "NM_KILLFOCUS" "通知父窗:用户失去输入焦点,相关结构:NMHDR"
    ∷ always "NM_NCHITTEST" "控件收到WM_NCHITTEST消息,相关结构:NMMOUSE"
    ∷ always "NM_RCLICK" "通知父窗:用户在控件上点击了鼠标右键,相关结构:NMHDR"
    ∷ always "NM_RDBLCLK" "通知父窗:用户在控件上双击了鼠标右键,相关结构:NMHDR"
    ∷ always "NM_RETURN" "通知父窗:控件获得键盘焦点并按下回车键,相关结构:NMHDR"
    ∷ always "NM_SETCURSOR" "通知父窗:控件响应WM_SETCURSOR要设置光标,相关结构:NMMOUSE"
    ∷ always "NM_SETFOCUS" "通知父窗:控件收到输入焦点,相关结构:NMHDR"
    ∷ always "NM_TOOLTIPSCREATED" "通知父窗:控件已创建一个工具提示控件,相关结构:NMTOOLTIPSCREATED"
    ∷ always "UDM_SETRANGE32" "设置旋转按钮的上下限范围(32位DWORD值)"
    ∷ always "UDN_DELTAPOS" "微调按钮控件的位置将要改变(向其父窗口发送),相关结构:NMUPDOWN"
    ∷ always "PGM_FORWARDMOUSE"
        "启用或禁用Pager分页控件的鼠标消息转发,若启用则Pager控件转发WM_MOUSEMOVE消息给包含的窗口,宏:Pager_ForwardMouse"
    ∷ always "PGM_GETBKCOLOR" "获取Pager分页控件的当前背景色,宏:Pager_GetBkColor"
    ∷ always "PGM_GETBORDER" "获取Pager分页控件的当前边界尺寸,宏:Pager_GetBorder"
    ∷ always "PGM_GETBUTTONSIZE" "获取Pager分页控件的当前按钮大小,宏:Pager_GetButtonSize"
    ∷ always "PGM_GETBUTTONSTATE" "获取Pager分页控件中指定按钮的状态,宏:Pager_GetButtonState"
    ∷ always "PGM_GETDROPTARGET" "获取Pager分页控件的IDropTarget接口指针,宏:Pager_GetDropTarget"
    ∷ always "PGM_GETPOS" "获取Pager分页控件的滚动条的当前位置,宏:Pager_GetPos"
    ∷ always "PGM_RECALCSIZE" "强制重新计算Pager分页控件包含的窗口的大小,宏:Pager_RecalcSize"
    ∷ always "PGM_SETBKCOLOR" "设置Pager分页控件的当前背景色,宏:Pager_SetBkColor"
    ∷ always "PGM_SETBORDER" "设置Pager分页控件的当前边界尺寸,宏:Pager_SetBorder"
    ∷ always "PGM_SETBUTTONSIZE" "设置Pager分页控件的当前按钮大小,宏:Pager_SetButtonSize"
    ∷ always "PGM_SETCHILD" "设置Pager分页控件中包含的窗口,宏:Pager_SetChild"
    ∷ always "PGM_SETPOS" "获取Pager分页控件的滚动条的当前位置,宏:Pager_SetPos"
    ∷ always "PGN_CALCSIZE" "Pager控件发送的通知消息,用以获得所包含窗口的滚动尺寸,相关结构:NMPGCALCSIZE"
    ∷ always "PGN_SCROLL" "在所包含窗口被滚动之前,Pager控件发送的通知消息,相关结构:NMPGSCROLL"
    ∷ []
